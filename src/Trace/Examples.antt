-- ===== src/Trace/Examples.antt =====
-- Tests of the traces, and their theorems at concrete inputs.
use Prim.Native.String.{String}
use modelforge_ai.Base.{◌≤◌, ◌≡◌, refl, true, false, none, List, [], ◌∷◌, arith}
use modelforge_ai.Trace.Sessions.{
  armed, TraceSession, Tracing, hydrate_armed_core_traces, disarm_core_trace, expire, arm_each,
  by_created_at, insert_session,
}
use modelforge_ai.Trace.Recorder.{
  CoreTraceRecorder, Writes, Report, reports, completes, report_all, event,
}
use modelforge_ai.Trace.Claims.{
  TraceCall, hydrates, claims, recorders_given, call_trace, claim_core_trace, claim_session,
  count_claimable,
}
use modelforge_ai.Trace.Once.{id_count, recorders_given-once}
use modelforge_ai.Trace.Log.{Extends, report_all-Extends}

abbrev plain : String → String
plain text = text

abbrev a_session : TraceSession
a_session = record {
  id = "t1";
  customer_id = "c1";
  request_id = none;
  status = armed;
  expires_at = 1_000;
  started_at = none;
  completed_at = none;
  summary = none;
  created_at = 10;
}

abbrev one_armed : Tracing
one_armed = record {
  db = record { sessions = a_session ∷ []; events = [] };
  armed_by_customer = [];
}

abbrev a_claim : String → TraceCall
a_claim request =
    claims
      (record {
        customer_id = "c1";
        request_id = request;
        started_at_ms = 20;
        explicit_trace_id = none;
        request_snapshot = "{}";
      })
      false (record { now = 25; takes_event = true; takes_session = true })

abbrev claims_twice : List TraceCall
claims_twice = hydrates 15 ∷ a_claim "r1" ∷ hydrates 30 ∷ a_claim "r2" ∷ []

recorders_given-once_example : recorders_given plain plain "t1" claims_twice one_armed ≤ 1
unfolding id_count
recorders_given-once_example =
    recorders_given-once plain plain "t1" claims_twice one_armed (omega arith)

first_claim_run : recorders_given plain plain "t1" claims_twice one_armed ≡ 1
unfolding recorders_given call_trace hydrate_armed_core_traces claim_core_trace expire arm_each
    by_created_at insert_session claim_session count_claimable event disarm_core_trace
first_claim_run = refl

abbrev a_recorder : CoreTraceRecorder
a_recorder = record { trace_id = "t1"; origin_ms = 20; sequence = 1; closed = false }

abbrev all_taken : Writes
all_taken = record { now = 50; takes_event = true; takes_session = true }

abbrev refuses_event : Writes
refuses_event = record { now = 40; takes_event = false; takes_session = true }

abbrev a_phase : Report
a_phase = reports (record { phase = "route"; kind = "model.resolved"; payload = none })

abbrev three_calls : List (Report × Writes)
three_calls = (a_phase, refuses_event) ∷ (a_phase, all_taken) ∷ (completes "{}", all_taken) ∷ []

report_all-Extends_example :
    Extends a_recorder one_armed.db (report_all plain plain three_calls (a_recorder, one_armed.db))
report_all-Extends_example = report_all-Extends plain plain three_calls a_recorder one_armed.db
