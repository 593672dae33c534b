-- ===== src/Trace/Armed.antt =====
-- What the operations on the traces leave armed (apps/gateway/src/lib/coreTrace.ts).
use Prim.Native.String.{String}
use modelforge_ai.Base.{
  ℕ, suc, ◌+◌, ◌≤◌, ◌≡◌, refl, ap, inl, inr, Bool, true, false, ◌&&◌, Option, List, [], ◌∷◌, map,
  arith, if◌then◌else◌, Bool-cases,
}
use modelforge_ai.Base.Text.{◌==◌, text_eq}
use modelforge_ai.Base.Assoc.{lookup}
use modelforge_ai.Trace.Sessions.{
  TraceStatus, completed, failed, TraceSession, TraceDb, Tracing, is_armed, is_expired, expire,
  disarm_core_trace, disarms,
}
use modelforge_ai.Trace.Recorder.{
  CoreTraceRecorder, Writes, Report, reports, completes, fails, TraceEventInput, event, end_session,
  update_session, complete, fail, report, report_all, finish,
}
use modelforge_ai.Trace.Claims.{ClaimInput, is_claimable, count_claimable, claim_session}

-- How many sessions with this id are armed.
unfoldable pub armed_count : String → List TraceSession → ℕ
armed_count trace [] = 0
armed_count trace (s ∷ ss) =
    let rest = armed_count trace ss in
    if (s.id == trace) && is_armed s.status then suc rest else rest

-- A change of a session that arms nothing.
abbrev pub NeverArms : (TraceSession → TraceSession) → Type 0
NeverArms f =
    (s : TraceSession)
    → ((f s).id ≡ s.id) × (is_armed (f s).status ≡ true → is_armed s.status ≡ true)

pub armed_count-map :
    (f : TraceSession → TraceSession) (trace : String) (ss : List TraceSession)
    → NeverArms f
    → armed_count trace (map f ss) ≤ armed_count trace ss
unfolding armed_count
armed_count-map f trace [] h = omega arith
armed_count-map f trace (s ∷ ss) h =
    let (same, arms_not) = h s in rw same (ground (arith, armed_count-map f trace ss h, arms_not))

pub expire-NeverArms : (now : ℕ) → NeverArms (expire now)
unfolding expire
expire-NeverArms now s = elim (Bool-cases (is_expired now s)) [
  | inl gone ↦ rw gone (refl, λ h. cc)
  | inr stays ↦ rw stays (refl, λ h. h)
]

pub claim_session-NeverArms :
    (trace : String) (input : ClaimInput) (now : ℕ) → NeverArms (claim_session trace input now)
unfolding claim_session
claim_session-NeverArms trace input now s =
    elim (Bool-cases (is_claimable trace input.customer_id now s)) [
      | inl claimed ↦ rw claimed (refl, λ h. cc)
      | inr left ↦ rw left (refl, λ h. h)
    ]

end_session-NeverArms :
    (status : TraceStatus) (now : ℕ) (summary id : String)
    → is_armed status ≡ false
    → NeverArms (end_session status now summary id)
end_session-NeverArms status now summary id k s = elim (Bool-cases (s.id == id)) [
  | inl own ↦ rw own (refl, λ h. cc)
  | inr other ↦ rw other (refl, λ h. h)
]

-- What the update of a claim counts is armed no more.
pub claimed_count :
    (trace : String) (input : ClaimInput) (now : ℕ) (ss : List TraceSession)
    → armed_count trace (map (claim_session trace input now) ss)
        + count_claimable trace input.customer_id now ss
      ≤ armed_count trace ss
unfolding armed_count claim_session count_claimable
claimed_count trace input now [] = omega arith
claimed_count trace input now (s ∷ ss) =
    elim (Bool-cases (is_claimable trace input.customer_id now s)) [
      | inl claimed ↦ rw claimed (ground (arith, claimed_count trace input now ss))
      | inr left ↦ rw left (ground (arith, claimed_count trace input now ss))
    ]

event-sessions :
    (input : TraceEventInput) (w : Writes) (r : CoreTraceRecorder) (db : TraceDb)
    → (event input w (r, db)).1.sessions ≡ db.sessions
unfolding event
event-sessions input w r db = elim (Bool-cases r.closed) [
  | inl closed ↦ rw closed refl
  | inr open_one ↦ elim (Bool-cases w.takes_event) [
    | inl takes ↦ rw (open_one, takes) refl
    | inr refuses ↦ rw (open_one, refuses) refl
  ]
]

update_session-le :
    (taken : Bool) (status : TraceStatus) (now : ℕ) (summary id trace : String) (db : TraceDb)
    → is_armed status ≡ false
    → armed_count trace (update_session taken status now summary id db).sessions
      ≤ armed_count trace db.sessions
update_session-le true status now summary id trace db k =
    armed_count-map (end_session status now summary id) trace db.sessions
      (end_session-NeverArms status now summary id k)
update_session-le false status now summary id trace db k = omega arith

finish-le :
    (status : TraceStatus) (input : TraceEventInput) (summary : String) (w : Writes)
    (r : CoreTraceRecorder) (db : TraceDb) (trace : String)
    → is_armed status ≡ false
    → armed_count trace (finish status input summary w (r, db)).1.sessions
      ≤ armed_count trace db.sessions
finish-le status input summary w r db trace k = elim (Bool-cases r.closed) [
  | inl closed ↦ simp closed (omega arith)
  | inr open_one ↦
      let same : armed_count trace (event input w (r, db)).1.sessions
          ≡ armed_count trace db.sessions =
        ap (armed_count trace) (event-sessions input w r db) in
      let less =
        update_session-le w.takes_session status w.now summary (event input w (r, db)).0.trace_id
          trace (event input w (r, db)).1 k in
      simp open_one (omega arith)
]

module _ (message_json error_json : String → String) where
  report-le :
      (call : Report) (w : Writes) (r : CoreTraceRecorder) (db : TraceDb) (trace : String)
      → armed_count trace (report message_json error_json call w (r, db)).1.sessions
        ≤ armed_count trace db.sessions
  unfolding report complete fail
  report-le (reports input) w r db trace = rw (event-sessions input w r db) (omega arith)
  report-le (completes summary) w r db trace = finish-le completed _ summary w r db trace refl
  report-le (fails message) w r db trace = finish-le failed _ (error_json message) w r db trace refl

  pub report_all-le :
      (calls : List (Report × Writes)) (r : CoreTraceRecorder) (db : TraceDb) (trace : String)
      → armed_count trace (report_all message_json error_json calls (r, db)).1.sessions
        ≤ armed_count trace db.sessions
  unfolding report_all
  report_all-le [] r db trace = omega arith
  report_all-le ((call, w) ∷ calls) r db trace =
      let after = report message_json error_json call w (r, db) in
      omega (arith, report-le call w r db trace, report_all-le calls after.0 after.1 trace)

pub disarm-sessions :
    (customer : String) (trace : Option String) (g : Tracing)
    → (disarm_core_trace customer trace g).db ≡ g.db
unfolding disarm_core_trace
disarm-sessions customer trace g =
    elim (Bool-cases (disarms trace (lookup customer g.armed_by_customer))) [
      | inl goes ↦ rw goes refl
      | inr keeps ↦ rw keeps refl
    ]
