-- ===== src/Voice/Schedules.antt =====
-- transcribePerTurn of apps/gateway/src/lib/voice/diarize.ts under every order of its workers.
use modelforge_ai.Base.{
  ℕ, ◌+◌, ◌≤◌, ◌<◌, ◌≡◌, ◌≢◌, refl, sym, ap, subst, ◌∙◌, inl, inr, Bool, true, false, ◌&&◌, Option,
  none, some, List, [], ◌∷◌, map, arith, ltb, Bool-cases, Option-cases, length, get_elem?,
  length-map, length-replicate,
}
use modelforge_ai.Base.Text.{nat_eq, eq_of_beq, beq_refl}
use modelforge_ai.Voice.Segments.{TranscriptSegment}
use modelforge_ai.Voice.Slices.{sort_segments}
use modelforge_ai.Voice.Slots.{
  idle_removes, idle_keeps, idle_self, length-put, get_elem?-put_ne, get_elem?-put_self,
  get_elem?-map, get_elem?-replicate, get_elem?_inside, lists_equal,
}
use modelforge_ai.Voice.Workers.{
  ClipAnswer, heard, cut_failed, asr_failed, PerTurnInput, PerTurnState, WorkerEvent, takes,
  answers, eligible_turns, worker_count, start_workers, is_busy, idle, put, outcome, clip_answer,
  note_answer, finish_slot, worker_step, run_workers, is_done, per_turn_of, present,
}

module _ (is_space : ℕ → Bool) (hear : ℕ → ℕ → ClipAnswer) (input : PerTurnInput) where
  abbrev pub turn_count : ℕ
  turn_count = length (eligible_turns input)

  -- What the clips of the turns give, one after the other.
  abbrev pub outcomes : List (Option TranscriptSegment)
  outcomes = map (outcome is_space hear input) (eligible_turns input)

  -- A slot that is taken and not waited for has its outcome; the others have nothing yet.
  pub record IsRun (s : PerTurnState) : Type 0 where
    pub sized : length s.results ≡ turn_count
    pub bounded : s.next ≤ turn_count
    pub taken : (i : ℕ) → is_busy i s.busy ≡ true → i < s.next
    pub given :
        (i : ℕ)
        → i < s.next
        → is_busy i s.busy ≡ false
        → get_elem? s.results i ≡ get_elem? outcomes i
    pub waiting : (i : ℕ) → is_busy i s.busy ≡ true → get_elem? s.results i ≡ some none
    pub untaken : (i : ℕ) → s.next ≤ i → i < turn_count → get_elem? s.results i ≡ some none

  pub start_workers-IsRun : IsRun (start_workers input)
  unfolding start_workers
  start_workers-IsRun = record {
    sized = length-replicate turn_count none;
    bounded = omega arith;
    taken = λ i h. cc;
    given = λ i h k. absurd (omega arith);
    waiting = λ i h. cc;
    untaken = λ i h k. get_elem?-replicate turn_count i none k;
  }

  take_slot-IsRun :
      (s : PerTurnState)
      → IsRun s
      → s.next < turn_count
      → IsRun (record s { next = s.next + 1; busy = s.next ∷ s.busy })
  take_slot-IsRun s r h = record {
    sized = r.sized;
    bounded = omega arith;
    taken = λ i k. ground (arith, r.taken i, eq_of_beq s.next i);
    given = λ i l k. r.given i (ground (arith, beq_refl i)) (ground arith);
    waiting = λ i k. elim (Bool-cases (is_busy i s.busy)) [
      | inl before ↦ r.waiting i before
      | inr new ↦ r.untaken i (ground arith) (ground arith)
    ];
    untaken = λ i l k. r.untaken i (omega arith) k;
  }

  finished_IsRun :
      (s : PerTurnState) (slot : ℕ) (o : Option TranscriptSegment)
      → IsRun s
      → is_busy slot s.busy ≡ true
      → get_elem? outcomes slot ≡ some o
      → IsRun (record s { busy = idle slot s.busy; results = put slot o s.results })
  finished_IsRun s slot o r h e = record {
    sized = length-put slot o s.results ∙ r.sized;
    bounded = r.bounded;
    taken = λ i k. r.taken i (idle_keeps i slot s.busy k);
    given = λ i l k. elim (Bool-cases (is_busy i s.busy)) [
      | inl before ↦ rw (idle_removes i slot s.busy before k) (
          get_elem?-put_self slot o s.results (omega (arith, r.taken slot h, r.sized, r.bounded))
            (r.waiting slot h)
          ∙ sym e)
      | inr free ↦ get_elem?-put_ne slot i o s.results (other i free) ∙ r.given i l free
    ];
    waiting = λ i k.
        get_elem?-put_ne slot i o s.results (still i k) ∙ r.waiting i (idle_keeps i slot s.busy k);
    untaken = λ i l k.
        get_elem?-put_ne slot i o s.results (λ q. absurd (omega (arith, r.taken slot h)))
        ∙ r.untaken i l k;
  }
    where
      other : (i : ℕ) → is_busy i s.busy ≡ false → slot ≢ i
      other i free q = let k : is_busy slot s.busy ≡ false = rw q free in cc

      still : (i : ℕ) → is_busy i (idle slot s.busy) ≡ true → slot ≢ i
      still i k q =
          let l : is_busy slot (idle slot s.busy) ≡ true =
            subst (λ x. is_busy x (idle slot s.busy) ≡ true) (sym q) k in
          let m = idle_self slot s.busy in cc

  noted_IsRun :
      (a : ClipAnswer) (s : PerTurnState) (busy : List ℕ)
      (results : List (Option TranscriptSegment))
      → IsRun (record s { busy = busy; results = results })
      → IsRun (record (note_answer is_space hear a s) { busy = busy; results = results })
  noted_IsRun cut_failed s busy results r = r
  noted_IsRun asr_failed s busy results r = r
  noted_IsRun (heard model language text confidence) s busy results r = record {
    sized = r.sized;
    bounded = r.bounded;
    taken = r.taken;
    given = r.given;
    waiting = r.waiting;
    untaken = r.untaken;
  }

  pub worker_step-IsRun :
      (e : WorkerEvent) (s after : PerTurnState)
      → IsRun s
      → worker_step is_space hear input e s ≡ some after
      → IsRun after
  unfolding worker_step
  worker_step-IsRun takes s after r h =
      elim (Bool-cases (ltb (length s.busy) (worker_count input) && ltb s.next turn_count)) [
        | inl can ↦
            let q : record s { next = s.next + 1; busy = s.next ∷ s.busy } ≡ after =
              (let k = rw can at h in cc) in
            subst IsRun q (take_slot-IsRun s r (ground arith))
        | inr cannot ↦ let k = rw cannot at h in cc
      ]
  worker_step-IsRun (answers slot) s after r h = elim (Bool-cases (is_busy slot s.busy)) [
    | inl waits ↦
        let (turn, found) =
          get_elem?_inside (eligible_turns input) slot
            (omega (arith, r.taken slot waits, r.bounded)) in
        let q : finish_slot is_space hear input slot (some turn) s ≡ after =
          (let k = rw (waits, found) at h in cc) in
        subst IsRun q (
          noted_IsRun (clip_answer is_space hear input turn) s _ _ (
            finished_IsRun s slot (outcome is_space hear input turn) r waits
              (get_elem?-map _ (eligible_turns input) slot turn found)))
    | inr idles ↦ let k = rw idles at h in cc
  ]

  pub run_workers-IsRun :
      (es : List WorkerEvent) (s after : PerTurnState)
      → IsRun s
      → run_workers is_space hear input es s ≡ some after
      → IsRun after
  unfolding run_workers
  run_workers-IsRun [] s after r h = subst IsRun (let k = h in cc) r
  run_workers-IsRun (e ∷ es) s after r h =
      elim (Option-cases (worker_step is_space hear input e s)) [
        | inl stuck ↦ let k = rw (run_workers, stuck) at h in cc
        | inr (next, stepped) ↦
            run_workers-IsRun es next after (worker_step-IsRun e s next r stepped)
              (rw (run_workers, stepped) at h)
      ]

  done_results :
      (s : PerTurnState) → IsRun s → is_done is_space hear input s ≡ true → s.results ≡ outcomes
  done_results s r h =
      lists_equal s.results outcomes
        (r.sized ∙ sym (length-map (eligible_turns input) (outcome is_space hear input)))
        λ i l.
          r.given i (omega (arith, all_taken, r.sized)) (rw (no_busy s.busy (ground arith)) refl)
    where
      all_taken : s.next ≡ turn_count
      all_taken = ground arith

      no_busy : (busy : List ℕ) → length busy ≡ 0 → busy ≡ []
      no_busy [] k = refl
      no_busy (b ∷ bs) k = absurd (omega arith)

  -- In whatever order the workers go on: when they are done, the segments are those that the turns give one
  -- after the other, in the order of their starts.
  pub per_turn_of-any_order :
      (es : List WorkerEvent) (s : PerTurnState)
      → run_workers is_space hear input es (start_workers input) ≡ some s
      → is_done is_space hear input s ≡ true
      → (per_turn_of is_space hear s).segments ≡ sort_segments (present outcomes)
  per_turn_of-any_order es s h done =
      ap (λ rs. sort_segments (present rs))
        (done_results s (run_workers-IsRun es (start_workers input) s start_workers-IsRun h) done)
