-- ===== src/Voice/Ending.antt =====
-- The workers of transcribePerTurn of apps/gateway/src/lib/voice/diarize.ts come to an end.
use modelforge_ai.Base.{
  ℕ, zero, suc, ◌+◌, ◌-◌, ◌*◌, ◌≤◌, ◌<◌, ◌≡◌, refl, subst, inl, inr, Bool, true, false, ◌&&◌,
  Option, some, List, [], ◌∷◌, arith, ltb, Bool-cases, Option-cases, length, get_elem?,
}
use modelforge_ai.Base.Text.{nat_eq, beq_refl}
use modelforge_ai.Voice.Segments.{TranscriptSegment}
use modelforge_ai.Voice.Slots.{get_elem?_inside}
use modelforge_ai.Voice.Workers.{
  ClipAnswer, heard, cut_failed, asr_failed, PerTurnInput, PerTurnState, WorkerEvent, takes,
  answers, eligible_turns, worker_count, start_workers, is_busy, idle, put, outcome, clip_answer,
  note_answer, finish_slot, worker_step, run_workers, is_done,
}
use modelforge_ai.Voice.Slots.{length-idle_less}
use modelforge_ai.Voice.Schedules.{
  turn_count, IsRun, start_workers-IsRun, worker_step-IsRun, run_workers-IsRun,
}

module _ (is_space : ℕ → Bool) (hear : ℕ → ℕ → ClipAnswer) (input : PerTurnInput) where
  -- What is left to do: each turn is taken and answered.
  abbrev work_left : PerTurnState → ℕ
  work_left s = 2 * (turn_count is_space hear input - s.next) + length s.busy

  noted_work_left :
      (a : ClipAnswer) (s : PerTurnState) (busy : List ℕ)
      (results : List (Option TranscriptSegment))
      → work_left (record (note_answer is_space hear a s) { busy = busy; results = results })
        ≡ 2 * (turn_count is_space hear input - s.next) + length busy
  noted_work_left cut_failed s busy results = refl
  noted_work_left asr_failed s busy results = refl
  noted_work_left (heard model language text confidence) s busy results = refl

  worker_step-work_left :
      (e : WorkerEvent) (s after : PerTurnState)
      → IsRun is_space hear input s
      → worker_step is_space hear input e s ≡ some after
      → work_left after < work_left s
  unfolding worker_step
  worker_step-work_left takes s after r h =
      elim (Bool-cases
        (ltb (length s.busy) (worker_count input) && ltb s.next (turn_count is_space hear input))) [
          | inl can ↦
              let q : record s { next = s.next + 1; busy = s.next ∷ s.busy } ≡ after =
                (let k = rw can at h in cc) in
              rw (← q)
                (let l : s.next < turn_count is_space hear input = ground arith in omega arith)
          | inr cannot ↦ let k = rw cannot at h in cc
        ]
  worker_step-work_left (answers slot) s after r h = elim (Bool-cases (is_busy slot s.busy)) [
    | inl waits ↦
        let (turn, found) =
          get_elem?_inside (eligible_turns input) slot
            (omega (arith, r.taken slot waits, r.bounded)) in
        let q : finish_slot is_space hear input slot (some turn) s ≡ after =
          (let k = rw (waits, found) at h in cc) in
        subst (λ (t : PerTurnState). work_left t < work_left s) q
          (rw
            (noted_work_left (clip_answer is_space hear input turn) s (idle slot s.busy)
              (put slot (outcome is_space hear input turn) s.results))
            (omega (arith, length-idle_less slot s.busy waits)))
    | inr idles ↦ let k = rw idles at h in cc
  ]

  run_workers-work_left :
      (es : List WorkerEvent) (s after : PerTurnState)
      → IsRun is_space hear input s
      → run_workers is_space hear input es s ≡ some after
      → length es + work_left after ≤ work_left s
  unfolding run_workers
  run_workers-work_left [] s after r h = let q : s ≡ after = cc in rw q (omega arith)
  run_workers-work_left (e ∷ es) s after r h =
      elim (Option-cases (worker_step is_space hear input e s)) [
        | inl stuck ↦ let k = rw (run_workers, stuck) at h in cc
        | inr (next, stepped) ↦
            let sound = worker_step-IsRun is_space hear input e s next r stepped in
            let rest = run_workers-work_left es next after sound (rw (run_workers, stepped) at h) in
            omega (arith, worker_step-work_left e s next r stepped)
      ]

  some_step :
      (s : PerTurnState) (busy : List ℕ)
      → s.busy ≡ busy
      → s.next ≤ turn_count is_space hear input
      → is_done is_space hear input s ≡ false
      → (e : WorkerEvent) × (after : PerTurnState) × (worker_step is_space hear input e s
          ≡ some after)
  unfolding worker_step
  some_step s [] q bounded h = (
    takes,
    record s { next = s.next + 1; busy = s.next ∷ s.busy },
    let l : length s.busy ≡ 0 = rw q refl in ground arith,
  )
  some_step s (slot ∷ busy) q bounded h =
      let waits : is_busy slot s.busy ≡ true = rw q (ground (arith, beq_refl slot)) in
      (
        answers slot,
        finish_slot is_space hear input slot (get_elem? (eligible_turns input) slot) s,
        rw waits refl,
      )

  run_workers_step :
      (e : WorkerEvent) (es : List WorkerEvent) (s next after : PerTurnState)
      → worker_step is_space hear input e s ≡ some next
      → run_workers is_space hear input es next ≡ some after
      → run_workers is_space hear input (e ∷ es) s ≡ some after
  unfolding run_workers
  run_workers_step e es s next after h k = rw (run_workers, h) k

  finish_from :
      (n : ℕ) (s : PerTurnState)
      → IsRun is_space hear input s
      → work_left s ≤ n
      → (es : List WorkerEvent) × (after : PerTurnState) × ((run_workers is_space hear input es s
            ≡ some after)
          × (is_done is_space hear input after ≡ true))
  unfolding run_workers
  finish_from zero s r h = elim (Bool-cases (is_done is_space hear input s)) [
    | inl done ↦ ([], s, (refl, done))
    | inr open_work ↦
        let (e, next, stepped) = some_step s s.busy refl r.bounded open_work in
        absurd (omega (arith, worker_step-work_left e s next r stepped))
  ]
  finish_from (suc n) s r h = elim (Bool-cases (is_done is_space hear input s)) [
    | inl done ↦ ([], s, (refl, done))
    | inr open_work ↦
        let (e, next, stepped) = some_step s s.busy refl r.bounded open_work in
        let less = worker_step-work_left e s next r stepped in
        let sound = worker_step-IsRun is_space hear input e s next r stepped in
        let (es, after, (runs, done)) = finish_from n next sound (omega arith) in
        (e ∷ es, after, (run_workers_step e es s next after stepped runs, done))
  ]

  -- The workers, in any order, need no more than two events for each eligible turn; and from wherever they
  -- are, they can go on to their end.
  pub run_workers_ends :
      (before : List WorkerEvent) (s : PerTurnState)
      → run_workers is_space hear input before (start_workers input) ≡ some s
      → (length before ≤ 2 * length (eligible_turns input))
        × ((es : List WorkerEvent) × (after : PerTurnState) × ((run_workers is_space hear input es s
                ≡ some after)
              × (is_done is_space hear input after ≡ true)))
  unfolding start_workers
  run_workers_ends before s h =
      let start = start_workers-IsRun is_space hear input in
      let r = run_workers-IsRun is_space hear input before (start_workers input) s start h in
      let work = run_workers-work_left before (start_workers input) s start h in
      (omega arith, finish_from (work_left s) s r (omega arith))
