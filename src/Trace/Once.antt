-- ===== src/Trace/Once.antt =====
-- A trace is claimed once (apps/gateway/src/lib/coreTrace.ts).
use Prim.Native.String.{String}
use modelforge_ai.Base.{
  ℕ, suc, ◌+◌, ◌≤◌, ◌≡◌, refl, ap, inl, inr, Bool, true, false, Option, none, some, List, [], ◌∷◌,
  map, arith, if◌then◌else◌, Bool-cases, ◌==◌ as nat_beq, ==_iff as nat_beq_iff,
}
use modelforge_ai.Base.Text.{◌==◌, text_eq, eq_of_beq}
use modelforge_ai.Base.Assoc.{lookup}
use modelforge_ai.Trace.Sessions.{
  TraceSession, TraceDb, Tracing, expire, hydrate_armed_core_traces, arm_core_trace,
  disarm_core_trace,
}
use modelforge_ai.Trace.Recorder.{CoreTraceRecorder, Writes, event}
use modelforge_ai.Trace.Claims.{
  ClaimInput, count_claimable, claim_session, claim_sessions, claim_result, claim_found,
  claim_core_trace, TraceCall, hydrates, arms, disarms_trace, claims, records, call_trace, gives,
  recorders_given, explicit_or_armed, start_recorder, set_sessions,
}
use modelforge_ai.Trace.Armed.{
  armed_count, armed_count-map, expire-NeverArms, claim_session-NeverArms, claimed_count,
  report_all-le, disarm-sessions,
}

abbrev given : Bool → ℕ
given true = 1
given false = 0

-- What a claim leaves armed, with the recorder that it gives.
abbrev NoMoreThan : String → ℕ → Tracing × Option CoreTraceRecorder → Type 0
NoMoreThan trace n (g, recorder) =
    armed_count trace g.db.sessions + given (gives trace recorder) ≤ n

started-sessions :
    (trace t : String) (input : ClaimInput) (w : Writes) (g : Tracing)
    → NoMoreThan t
        (armed_count t g.db.sessions + given (trace == t))
        (start_recorder trace input w g)
unfolding event
started-sessions trace t input w g = elim (Bool-cases w.takes_event) [
  | inl takes ↦ rw takes (omega arith)
  | inr refuses ↦ rw refuses (omega arith)
]

claim_result-le :
    (trace t : String) (input : ClaimInput) (w : Writes) (count : ℕ) (ss : List TraceSession)
    (g : Tracing)
    → armed_count t ss ≤ armed_count t g.db.sessions
    → ((trace == t) ≡ true → armed_count t ss + count ≤ armed_count t g.db.sessions)
    → NoMoreThan t (armed_count t g.db.sessions) (claim_result trace input w (count, ss) g)
claim_result-le trace t input w count ss g less counted =
    let kept = disarm-sessions input.customer_id (some trace) (set_sessions g ss) in
    let disarmed = disarm_core_trace input.customer_id (some trace) (set_sessions g ss) in
    let same : armed_count t disarmed.db.sessions ≡ armed_count t ss =
      ap (λ (db : TraceDb). armed_count t db.sessions) kept in
    elim (Bool-cases (nat_beq count 1)) [
      | inl one ↦
          let started = started-sessions trace t input w disarmed in
          let e : count ≡ 1 = (nat_beq_iff count 1).0 one in
          rw one (elim (Bool-cases (trace == t)) [
            | inl own ↦
                let c = counted own in let q : given (trace == t) ≡ 1 = rw own refl in omega arith
            | inr other ↦ let q : given (trace == t) ≡ 0 = rw other refl in omega arith
          ])
      | inr none_or_more ↦ rw none_or_more (omega arith)
    ]

claim_core_trace-le :
    (t : String) (input : ClaimInput) (refused : Bool) (w : Writes) (g : Tracing)
    → NoMoreThan t (armed_count t g.db.sessions) (claim_core_trace input refused w g)
unfolding claim_core_trace
claim_core_trace-le t input refused w g =
    found (explicit_or_armed input.explicit_trace_id (lookup input.customer_id g.armed_by_customer))
  where
    of_table :
        (trace : String) (b : Bool)
        → NoMoreThan t
            (armed_count t g.db.sessions)
            (claim_result trace input w (claim_sessions b trace input w.now g.db.sessions) g)
    of_table trace true =
        claim_result-le trace t input w 0 g.db.sessions g (omega arith) (λ h. omega arith)
    of_table trace false =
        claim_result-le trace t input w
          (count_claimable trace input.customer_id w.now g.db.sessions)
          (map (claim_session trace input w.now) g.db.sessions) g
          (armed_count-map _ t g.db.sessions (claim_session-NeverArms trace input w.now))
          (λ own. rw (← eq_of_beq trace t own) (claimed_count trace input w.now g.db.sessions))

    found :
        (o : Option String)
        → NoMoreThan t (armed_count t g.db.sessions) (claim_found input refused w o g)
    found none = omega arith
    found (some trace) = elim (Bool-cases (trace == "")) [
      | inl blank ↦ rw blank (omega arith)
      | inr named ↦ rw named (of_table trace refused)
    ]

-- How many sessions have this id.
unfoldable pub id_count : String → List TraceSession → ℕ
id_count trace [] = 0
id_count trace (s ∷ ss) = let rest = id_count trace ss in if s.id == trace then suc rest else rest

armed_count-le-id_count :
    (trace : String) (ss : List TraceSession) → armed_count trace ss ≤ id_count trace ss
unfolding armed_count id_count
armed_count-le-id_count trace [] = omega arith
armed_count-le-id_count trace (s ∷ ss) = ground (arith, armed_count-le-id_count trace ss)

module _ (message_json error_json : String → String) where
  call_trace-le :
      (t : String) (call : TraceCall) (g : Tracing)
      → NoMoreThan t (armed_count t g.db.sessions) (call_trace message_json error_json call g)
  unfolding call_trace hydrate_armed_core_traces arm_core_trace
  call_trace-le t (hydrates now) g =
      omega (arith, armed_count-map (expire now) t g.db.sessions (expire-NeverArms now))
  call_trace-le t (arms customer trace) g = omega arith
  call_trace-le t (disarms_trace customer trace) g =
      let same : armed_count t (disarm_core_trace customer trace g).db.sessions
          ≡ armed_count t g.db.sessions =
        ap (λ (db : TraceDb). armed_count t db.sessions) (disarm-sessions customer trace g) in
      omega arith
  call_trace-le t (claims input refused w) g = claim_core_trace-le t input refused w g
  call_trace-le t (records r calls) g =
      omega (arith, report_all-le message_json error_json calls r g.db t)

  recorders_given-le :
      (t : String) (calls : List TraceCall) (g : Tracing)
      → recorders_given message_json error_json t calls g ≤ armed_count t g.db.sessions
  unfolding recorders_given
  recorders_given-le t [] g = omega arith
  recorders_given-le t (call ∷ calls) g =
      let (after, recorder) = call_trace message_json error_json call g in
      let step = call_trace-le t call g in
      let rest = recorders_given-le t calls (call_trace message_json error_json call g).0 in
      elim (Bool-cases (gives t (call_trace message_json error_json call g).1)) [
        | inl gave ↦ rw gave (
            let q : given (gives t (call_trace message_json error_json call g).1) ≡ 1 =
              rw gave refl in
            omega arith)
        | inr kept ↦ rw kept (omega arith)
      ]

  -- If no two sessions have its id, then a trace is claimed once at most: whatever is hydrated, armed,
  -- disarmed, claimed and recorded, in any order and at any times, at most one of the calls gives a recorder
  -- for it.
  pub recorders_given-once :
      (t : String) (calls : List TraceCall) (g : Tracing)
      → id_count t g.db.sessions ≤ 1
      → recorders_given message_json error_json t calls g ≤ 1
  recorders_given-once t calls g h =
      omega (arith, recorders_given-le t calls g, armed_count-le-id_count t g.db.sessions)
