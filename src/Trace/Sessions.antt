-- ===== src/Trace/Sessions.antt =====
-- The tables of the traces (packages/db/prisma/schema.prisma), and the map of the armed ones, in apps/
-- gateway/src/lib/coreTrace.ts. A payload is its JSON text; times are milliseconds.
use Prim.Native.String.{String}
use modelforge_ai.Base.{
  ℕ, Bool, true, false, ◌&&◌, Option, none, some, List, [], ◌∷◌, map, length, if◌then◌else◌, ltb,
  leb,
}
use modelforge_ai.Base.Text.{◌==◌, text_eq}
use modelforge_ai.Base.Preds.{filter}
use modelforge_ai.Base.Assoc.{lookup, insert, delete}

pub data TraceStatus : Type 0 where
  armed capturing completed failed expired : TraceStatus

pub record TraceSession : Type 0 where
  pub id : String
  pub customer_id : String
  pub request_id : Option String
  pub status : TraceStatus
  pub expires_at : ℕ
  pub started_at : Option ℕ
  pub completed_at : Option ℕ
  pub summary : Option String
  pub created_at : ℕ

pub record TraceEvent : Type 0 where
  pub trace_id : String
  pub sequence : ℕ
  pub phase : String
  pub kind : String
  pub at_ms : ℕ
  pub payload : Option String

pub record TraceDb : Type 0 where
  pub sessions : List TraceSession
  pub events : List TraceEvent

-- The database, and armedByCustomer.
pub record Tracing : Type 0 where
  pub db : TraceDb
  pub armed_by_customer : List (String × String)

abbrev pub is_armed : TraceStatus → Bool
is_armed armed = true
is_armed _ = false

abbrev pub is_expired : ℕ → TraceSession → Bool
is_expired now s = is_armed s.status && leb s.expires_at now

abbrev pub is_open : ℕ → TraceSession → Bool
is_open now s = is_armed s.status && ltb now s.expires_at

unfoldable pub expire : ℕ → TraceSession → TraceSession
expire now s = if is_expired now s then record s { status = expired } else s

-- orderBy: { createdAt: "asc" }
unfoldable pub insert_session : TraceSession → List TraceSession → List TraceSession
insert_session s [] = s ∷ []
insert_session s (r ∷ rs) =
    if leb s.created_at r.created_at then s ∷ r ∷ rs else r ∷ insert_session s rs

unfoldable pub by_created_at : List TraceSession → List TraceSession
by_created_at [] = []
by_created_at (s ∷ ss) = insert_session s (by_created_at ss)

abbrev pub arm_if_absent :
    TraceSession → Option String → List (String × String) → List (String × String)
arm_if_absent s none m = insert s.customer_id s.id m
arm_if_absent s (some other) m = m

unfoldable pub arm_each : List TraceSession → List (String × String) → List (String × String)
arm_each [] m = m
arm_each (s ∷ ss) m = arm_each ss (arm_if_absent s (lookup s.customer_id m) m)

unfoldable pub hydrate_armed_core_traces : ℕ → Tracing → Tracing × ℕ
hydrate_armed_core_traces now g =
    let sessions = map (expire now) g.db.sessions in
    let found = arm_each (by_created_at (filter (is_open now) sessions)) [] in
    (record g { db = record g.db { sessions = sessions }; armed_by_customer = found }, length found)

unfoldable pub arm_core_trace : String → String → Tracing → Tracing
arm_core_trace customer trace g = record g {
  armed_by_customer = insert customer trace (delete customer g.armed_by_customer);
}

-- `get(customerId) === traceId`
abbrev pub is_value : Option String → String → Bool
is_value none trace = false
is_value (some other) trace = other == trace

-- `!traceId || armedByCustomer.get(customerId) === traceId`
abbrev pub disarms : Option String → Option String → Bool
disarms none held = true
disarms (some trace) held = if trace == "" then true else is_value held trace

unfoldable pub disarm_core_trace : String → Option String → Tracing → Tracing
disarm_core_trace customer trace g =
    if disarms trace (lookup customer g.armed_by_customer)
    then record g { armed_by_customer = delete customer g.armed_by_customer }
    else g
