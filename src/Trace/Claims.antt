-- ===== src/Trace/Claims.antt =====
-- claimCoreTrace of apps/gateway/src/lib/coreTrace.ts, and the operations on the traces one after the other.
-- Whether the database refuses the update of a claim, and takes the rows of a recorder, is a parameter.
use Prim.Native.String.{String}
use modelforge_ai.Base.{
  ℕ, suc, Bool, true, false, ◌&&◌, Option, none, some, List, [], ◌∷◌, map, if◌then◌else◌,
  ◌==◌ as nat_beq,
}
use modelforge_ai.Base.Text.{◌==◌, text_eq}
use modelforge_ai.Base.Assoc.{lookup}
use modelforge_ai.Trace.Sessions.{
  capturing, TraceSession, TraceDb, Tracing, is_open, hydrate_armed_core_traces, arm_core_trace,
  disarm_core_trace,
}
use modelforge_ai.Trace.Recorder.{
  TraceEventInput, CoreTraceRecorder, Writes, Report, event, report_all,
}

pub record ClaimInput : Type 0 where
  pub customer_id : String
  pub request_id : String
  pub started_at_ms : ℕ
  pub explicit_trace_id : Option String
  pub request_snapshot : String

-- input.explicitTraceId ?? armedByCustomer.get(input.customerId)
abbrev pub explicit_or_armed : Option String → Option String → Option String
explicit_or_armed none held = held
explicit_or_armed (some trace) held = some trace

abbrev pub is_claimable : String → String → ℕ → TraceSession → Bool
is_claimable trace customer now s = (s.id == trace) && (s.customer_id == customer) && is_open now s

unfoldable pub count_claimable : String → String → ℕ → List TraceSession → ℕ
count_claimable trace customer now [] = 0
count_claimable trace customer now (s ∷ ss) =
    let rest = count_claimable trace customer now ss in
    if is_claimable trace customer now s then suc rest else rest

unfoldable pub claim_session : String → ClaimInput → ℕ → TraceSession → TraceSession
claim_session trace input now s =
    if is_claimable trace input.customer_id now s
    then record s { status = capturing; request_id = some input.request_id; started_at = some now }
    else s

-- updateMany: the count of the rows, and the table.
abbrev pub claim_sessions :
    Bool → String → ClaimInput → ℕ → List TraceSession → ℕ × List TraceSession
claim_sessions true trace input now ss = (0, ss)
claim_sessions false trace input now ss =
    (count_claimable trace input.customer_id now ss, map (claim_session trace input now) ss)

abbrev pub set_sessions : Tracing → List TraceSession → Tracing
set_sessions g ss = record g { db = record g.db { sessions = ss } }

abbrev pub set_db : Tracing → TraceDb → Tracing
set_db g db = record g { db = db }

abbrev pub fresh_recorder : String → ClaimInput → CoreTraceRecorder
fresh_recorder trace input = record {
  trace_id = trace;
  origin_ms = input.started_at_ms;
  sequence = 0;
  closed = false;
}

abbrev pub ingress : ClaimInput → TraceEventInput
ingress input = record {
  phase = "ingress";
  kind = "request.received";
  payload = some input.request_snapshot;
}

-- The recorder, and its first event.
abbrev pub start_recorder :
    String → ClaimInput → Writes → Tracing → Tracing × Option CoreTraceRecorder
start_recorder trace input w g =
    let (recorder, db) = event (ingress input) w (fresh_recorder trace input, g.db) in
    (set_db g db, some recorder)

abbrev pub claim_result :
    String
    → ClaimInput
    → Writes
    → ℕ × List TraceSession
    → Tracing
    → Tracing × Option CoreTraceRecorder
claim_result trace input w (count, ss) g =
    let disarmed = disarm_core_trace input.customer_id (some trace) (set_sessions g ss) in
    if nat_beq count 1 then start_recorder trace input w disarmed else (disarmed, none)

abbrev pub claim_found :
    ClaimInput → Bool → Writes → Option String → Tracing → Tracing × Option CoreTraceRecorder
claim_found input refused w none g = (g, none)
claim_found input refused w (some trace) g =
    if trace == ""
    then (g, none)
    else claim_result trace input w (claim_sessions refused trace input w.now g.db.sessions) g

unfoldable pub claim_core_trace :
    ClaimInput → Bool → Writes → Tracing → Tracing × Option CoreTraceRecorder
claim_core_trace input refused w g =
    claim_found input refused w
      (explicit_or_armed input.explicit_trace_id (lookup input.customer_id g.armed_by_customer)) g

pub data TraceCall : Type 0 where
  hydrates : ℕ → TraceCall
  arms : String → String → TraceCall
  disarms_trace : String → Option String → TraceCall
  claims : ClaimInput → Bool → Writes → TraceCall
  records : CoreTraceRecorder → List (Report × Writes) → TraceCall

abbrev pub gives : String → Option CoreTraceRecorder → Bool
gives trace none = false
gives trace (some r) = r.trace_id == trace

module _ (message_json error_json : String → String) where
  -- What the call leaves, and the recorder that it gives.
  unfoldable pub call_trace : TraceCall → Tracing → Tracing × Option CoreTraceRecorder
  call_trace (hydrates now) g = ((hydrate_armed_core_traces now g).0, none)
  call_trace (arms customer trace) g = (arm_core_trace customer trace g, none)
  call_trace (disarms_trace customer trace) g = (disarm_core_trace customer trace g, none)
  call_trace (claims input refused w) g = claim_core_trace input refused w g
  call_trace (records r calls) g =
      (set_db g (report_all message_json error_json calls (r, g.db)).1, none)

  -- How many of the calls give a recorder for the trace.
  unfoldable pub recorders_given : String → List TraceCall → Tracing → ℕ
  recorders_given trace [] g = 0
  recorders_given trace (call ∷ calls) g =
      let rest = recorders_given trace calls (call_trace call g).0 in
      if gives trace (call_trace call g).1 then suc rest else rest
