-- ===== src/Voice/Coalesced.antt =====
-- What coalesceTurns of apps/gateway/src/lib/voice/diarize.ts gives for the turns of a diarization.
use modelforge_ai.Base.{
  ℕ, ◌≤◌, ◌≡◌, refl, sym, ap, ◌∙◌, inl, inr, false, Option, none, some, List, [], ◌∷◌, arith,
  Bool-cases,
}
use modelforge_ai.Base.Text.{text_eq, eq_of_beq}
use modelforge_ai.Base.Preds.{In}
use modelforge_ai.Voice.Turns.{
  DiarizationTurn, sort_turns, joins, extend, coalesce_onto, coalesce_sorted, coalesce_turns,
}
use modelforge_ai.Voice.Sorted.{
  Ascending, Ascending-le, sort_turns-Ascending, sort_turns-eq, In-sort_turns,
}

-- A turn of the same speaker begins no later and ends no earlier.
abbrev pub IsCovered : DiarizationTurn → List DiarizationTurn → Type 0
IsCovered t us =
    (u : DiarizationTurn) × (In u us
      × (u.speaker ≡ t.speaker)
      × (u.start ≤ t.start)
      × (t.end ≤ u.end))

-- Neighbours in the list, the one before it included, are not to be joined.
abbrev NotJoined : ℕ → Option DiarizationTurn → DiarizationTurn → Type 0
NotJoined gap none t = Unit
NotJoined gap (some prev) t = joins gap prev t ≡ false

abbrev pub Apart : ℕ → Option DiarizationTurn → List DiarizationTurn → Type 0
Apart gap before [] = Unit
Apart gap before (t ∷ ts) = NotJoined gap before t × Apart gap (some t) ts

extend-NotJoined :
    (gap : ℕ) (before : Option DiarizationTurn) (prev cur : DiarizationTurn)
    → NotJoined gap before prev
    → NotJoined gap before (extend prev cur)
extend-NotJoined gap none prev cur h = tt
extend-NotJoined gap (some p) prev cur h = h

coalesce_onto-Ascending :
    (gap b : ℕ) (prev : DiarizationTurn) (rest : List DiarizationTurn)
    → b ≤ prev.start
    → Ascending prev.start rest
    → Ascending b (coalesce_onto gap prev rest)
unfolding coalesce_onto
coalesce_onto-Ascending gap b prev [] h s = (h, tt)
coalesce_onto-Ascending gap b prev (cur ∷ rest) h (k, s) = elim (Bool-cases (joins gap prev cur)) [
  | inl joined ↦ rw joined (
      coalesce_onto-Ascending gap b (extend prev cur) rest h
        (Ascending-le prev.start cur.start rest k s))
  | inr other ↦ rw other (h, coalesce_onto-Ascending gap prev.start cur rest k s)
]

coalesce_onto-Apart :
    (gap : ℕ) (before : Option DiarizationTurn) (prev : DiarizationTurn)
    (rest : List DiarizationTurn)
    → NotJoined gap before prev
    → Apart gap before (coalesce_onto gap prev rest)
unfolding coalesce_onto
coalesce_onto-Apart gap before prev [] h = (h, tt)
coalesce_onto-Apart gap before prev (cur ∷ rest) h = elim (Bool-cases (joins gap prev cur)) [
  | inl joined ↦ rw joined (
      coalesce_onto-Apart gap before (extend prev cur) rest
        (extend-NotJoined gap before prev cur h))
  | inr other ↦ rw other (h, coalesce_onto-Apart gap (some prev) cur rest other)
]

coalesce_onto-eq :
    (gap : ℕ) (t : DiarizationTurn) (ts : List DiarizationTurn)
    → Apart gap (some t) ts
    → coalesce_onto gap t ts ≡ t ∷ ts
unfolding coalesce_onto
coalesce_onto-eq gap t [] h = refl
coalesce_onto-eq gap t (u ∷ us) (first, h) =
    rw first (ap (λ vs. t ∷ vs) (coalesce_onto-eq gap u us h))

IsCovered-of_wider :
    (t wide : DiarizationTurn) (us : List DiarizationTurn)
    → wide.speaker ≡ t.speaker
    → wide.start ≤ t.start
    → t.end ≤ wide.end
    → IsCovered wide us
    → IsCovered t us
IsCovered-of_wider t wide us e h k (u, (m, f, l, r)) = (u, (m, f ∙ e, omega arith, omega arith))

IsCovered-cons :
    (t u : DiarizationTurn) (us : List DiarizationTurn) → IsCovered t us → IsCovered t (u ∷ us)
IsCovered-cons t u us (v, (m, f, l, r)) = (v, (inr m, f, l, r))

coalesce_onto-IsCovered :
    (gap : ℕ) (prev : DiarizationTurn) (rest : List DiarizationTurn) (t : DiarizationTurn)
    → Ascending prev.start rest
    → In t (prev ∷ rest)
    → IsCovered t (coalesce_onto gap prev rest)
unfolding coalesce_onto
coalesce_onto-IsCovered gap prev [] t s (inl e) =
    rw e (prev, (inl refl, refl, omega arith, omega arith))
coalesce_onto-IsCovered gap prev [] t s (inr m) = absurd m.1
coalesce_onto-IsCovered gap prev (cur ∷ rest) t (k, s) m = elim (Bool-cases (joins gap prev cur)) [
  | inl joined ↦
      let s' = Ascending-le prev.start cur.start rest k s in
      let wide =
        coalesce_onto-IsCovered gap (extend prev cur) rest (extend prev cur) s' (inl refl) in
      rw joined (elim m [
        | inl e ↦
            rw e (IsCovered-of_wider prev (extend prev cur) _ refl (omega arith) (omega arith) wide)
        | inr (inl e) ↦ rw e (
            IsCovered-of_wider cur (extend prev cur) _
              (sym (eq_of_beq cur.speaker prev.speaker (ground arith))) k (omega arith) wide)
        | inr (inr n) ↦ coalesce_onto-IsCovered gap (extend prev cur) rest t s' (inr n)
      ])
  | inr other ↦ rw other (elim m [
    | inl e ↦ rw e (prev, (inl refl, refl, omega arith, omega arith))
    | inr n ↦ IsCovered-cons t prev _ (coalesce_onto-IsCovered gap cur rest t s n)
  ])
]

-- Every turn lies within a coalesced turn of its speaker.
pub coalesce_turns-IsCovered :
    (turns : List DiarizationTurn) (gap : ℕ) (t : DiarizationTurn)
    → In t turns
    → IsCovered t (coalesce_turns turns gap)
unfolding coalesce_turns
coalesce_turns-IsCovered turns gap t m =
    covered (sort_turns turns) (sort_turns-Ascending turns) (In-sort_turns t turns m)
  where
    covered :
        (ts : List DiarizationTurn)
        → Ascending 0 ts
        → In t ts
        → IsCovered t (coalesce_sorted gap ts)
    covered [] s n = absurd n.1
    covered (u ∷ us) (_, s) n = coalesce_onto-IsCovered gap u us t s n

coalesced_in_order :
    (turns : List DiarizationTurn) (gap : ℕ)
    → Ascending 0 (coalesce_turns turns gap) × Apart gap none (coalesce_turns turns gap)
unfolding coalesce_turns
coalesced_in_order turns gap = in_order (sort_turns turns) (sort_turns-Ascending turns)
  where
    in_order :
        (ts : List DiarizationTurn)
        → Ascending 0 ts
        → Ascending 0 (coalesce_sorted gap ts) × Apart gap none (coalesce_sorted gap ts)
    in_order [] s = (tt, tt)
    in_order (u ∷ us) (k, s) =
        (coalesce_onto-Ascending gap 0 u us k s, coalesce_onto-Apart gap none u us tt)

coalesce_sorted-eq :
    (gap : ℕ) (ts : List DiarizationTurn) → Apart gap none ts → coalesce_sorted gap ts ≡ ts
coalesce_sorted-eq gap [] h = refl
coalesce_sorted-eq gap (u ∷ us) (_, h) = coalesce_onto-eq gap u us h

coalesce_turns-eq :
    (gap : ℕ) (ts : List DiarizationTurn)
    → Ascending 0 ts
    → Apart gap none ts
    → coalesce_turns ts gap ≡ ts
unfolding coalesce_turns
coalesce_turns-eq gap ts s h =
    ap (coalesce_sorted gap) (sort_turns-eq 0 ts s) ∙ coalesce_sorted-eq gap ts h

-- The coalesced turns begin in order; none is to be joined to the one before it; and coalescing them
-- again changes nothing.
pub coalesce_turns-settled :
    (turns : List DiarizationTurn) (gap : ℕ)
    → Ascending 0 (coalesce_turns turns gap)
      × Apart gap none (coalesce_turns turns gap)
      × (coalesce_turns (coalesce_turns turns gap) gap ≡ coalesce_turns turns gap)
coalesce_turns-settled turns gap =
    let (s, h) = coalesced_in_order turns gap in (s, h, coalesce_turns-eq gap _ s h)
