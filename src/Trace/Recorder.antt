-- ===== src/Trace/Recorder.antt =====
-- CoreTraceRecorder of apps/gateway/src/lib/coreTrace.ts, its calls one after the other. Whether the
-- database takes a row is a parameter of each write: what it refuses is logged and left out.
use Prim.Native.String.{String}
use modelforge_ai.Base.{
  ℕ, ◌+◌, ◌-◌, Bool, true, false, Option, some, List, [], ◌∷◌, ◌++◌, map, if◌then◌else◌,
}
use modelforge_ai.Base.Text.{◌==◌, text_eq}
use modelforge_ai.Trace.Sessions.{TraceStatus, completed, failed, TraceSession, TraceEvent, TraceDb}

pub record TraceEventInput : Type 0 where
  pub phase : String
  pub kind : String
  pub payload : Option String

pub record CoreTraceRecorder : Type 0 where
  pub trace_id : String
  pub origin_ms : ℕ
  pub sequence : ℕ
  pub closed : Bool

-- The time of a call, and whether its two writes succeed.
pub record Writes : Type 0 where
  pub now : ℕ
  pub takes_event : Bool
  pub takes_session : Bool

-- Math.max(0, …) is the subtraction that stops at 0.
abbrev pub event_row : CoreTraceRecorder → TraceEventInput → ℕ → TraceEvent
event_row r input now = record {
  trace_id = r.trace_id;
  sequence = r.sequence;
  phase = input.phase;
  kind = input.kind;
  at_ms = now - r.origin_ms;
  payload = input.payload;
}

abbrev pub create_event : Bool → TraceEvent → TraceDb → TraceDb
create_event true row db = record db { events = db.events ++ (row ∷ []) }
create_event false row db = db

unfoldable pub event :
    TraceEventInput → Writes → CoreTraceRecorder × TraceDb → CoreTraceRecorder × TraceDb
event input w (r, db) =
    let next = record r { sequence = r.sequence + 1 } in
    if r.closed then (r, db) else (next, create_event w.takes_event (event_row next input w.now) db)

abbrev pub end_session : TraceStatus → ℕ → String → String → TraceSession → TraceSession
end_session status now summary id s =
    if s.id == id
    then record s { status = status; completed_at = some now; summary = some summary }
    else s

abbrev pub update_session : Bool → TraceStatus → ℕ → String → String → TraceDb → TraceDb
update_session true status now summary id db = record db {
  sessions = map (end_session status now summary id) db.sessions;
}
update_session false status now summary id db = db

-- this.closed = true, and the update of the session.
abbrev pub close :
    TraceStatus → String → Writes → CoreTraceRecorder × TraceDb → CoreTraceRecorder × TraceDb
close status summary w (r, db) =
    (record r { closed = true }, update_session w.takes_session status w.now summary r.trace_id db)

abbrev pub finish :
    TraceStatus
    → TraceEventInput
    → String
    → Writes
    → CoreTraceRecorder × TraceDb
    → CoreTraceRecorder × TraceDb
finish status input summary w s = if s.0.closed then s else close status summary w (event input w s)

unfoldable pub complete :
    String → Writes → CoreTraceRecorder × TraceDb → CoreTraceRecorder × TraceDb
complete summary w s =
    finish completed
      (record { phase = "complete"; kind = "request.completed"; payload = some summary }) summary w
      s

-- A call of the recorder's methods.
pub data Report : Type 0 where
  reports : TraceEventInput → Report
  completes fails : String → Report

module _ (message_json error_json : String → String) where
  unfoldable pub fail : String → Writes → CoreTraceRecorder × TraceDb → CoreTraceRecorder × TraceDb
  fail message w s =
      finish failed
        (record {
          phase = "failed";
          kind = "request.failed";
          payload = some (message_json message);
        })
        (error_json message) w s

  unfoldable pub report :
      Report → Writes → CoreTraceRecorder × TraceDb → CoreTraceRecorder × TraceDb
  report (reports input) w s = event input w s
  report (completes summary) w s = complete summary w s
  report (fails message) w s = fail message w s

  unfoldable pub report_all :
      List (Report × Writes) → CoreTraceRecorder × TraceDb → CoreTraceRecorder × TraceDb
  report_all [] s = s
  report_all ((call, w) ∷ calls) s = report_all calls (report call w s)
