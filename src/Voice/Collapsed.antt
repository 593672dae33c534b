-- ===== src/Voice/Collapsed.antt =====
-- What collapseDuplicateAdjacentText of apps/gateway/src/lib/voice/diarize.ts keeps.
use modelforge_ai.Base.{
  ℕ, ◌≤◌, ◌≡◌, refl, sym, ap, ◌∙◌, inl, inr, Bool, true, false, Option, none, some, List, [], ◌∷◌,
  arith, Bool-cases,
}
use modelforge_ai.Base.Text.{nat_eq, eq_of_beq}
use modelforge_ai.Base.Preds.{In}
use modelforge_ai.Voice.Segments.{TranscriptSegment}
use modelforge_ai.Voice.Words.{squeeze}
use modelforge_ai.Base.Units.{Units}
use modelforge_ai.Voice.Normalize.{same_text}
use modelforge_ai.Voice.Diarize.{
  collapses, prolong, collapse_onto, collapse_duplicate_adjacent_text,
}

same_text-eq : (xs ys : Units) → same_text xs ys ≡ true → xs ≡ ys
unfolding same_text
same_text-eq [] [] h = refl
same_text-eq [] (d ∷ ds) h = cc
same_text-eq (c ∷ cs) [] h = cc
same_text-eq (c ∷ cs) (d ∷ ds) h =
    let e : c ≡ d = eq_of_beq c d (ground arith) in let f = same_text-eq cs ds (ground arith) in cc

module _ (is_space : ℕ → Bool) where
  -- A segment that says the same, but for white space, and ends no earlier.
  abbrev pub IsSaid : TranscriptSegment → List TranscriptSegment → Type 0
  IsSaid s out =
      (r : TranscriptSegment) × (In r out
        × (squeeze is_space r.text ≡ squeeze is_space s.text)
        × (s.end_sec ≤ r.end_sec))

  abbrev NotSame : Option TranscriptSegment → TranscriptSegment → Type 0
  NotSame none s = Unit
  NotSame (some prev) s = collapses is_space prev s ≡ false

  abbrev pub NoneCollapses : Option TranscriptSegment → List TranscriptSegment → Type 0
  NoneCollapses before [] = Unit
  NoneCollapses before (s ∷ ss) = NotSame before s × NoneCollapses (some s) ss

  prolong-NotSame :
      (before : Option TranscriptSegment) (prev s : TranscriptSegment)
      → NotSame before prev
      → NotSame before (prolong is_space prev s)
  prolong-NotSame none prev s h = tt
  prolong-NotSame (some p) prev s h = h

  collapse_onto-NoneCollapses :
      (before : Option TranscriptSegment) (prev : TranscriptSegment) (rest : List TranscriptSegment)
      → NotSame before prev
      → NoneCollapses before (collapse_onto is_space prev rest)
  unfolding collapse_onto
  collapse_onto-NoneCollapses before prev [] h = (h, tt)
  collapse_onto-NoneCollapses before prev (s ∷ rest) h =
      elim (Bool-cases (collapses is_space prev s)) [
        | inl same ↦ rw same (
            collapse_onto-NoneCollapses before (prolong is_space prev s) rest
              (prolong-NotSame before prev s h))
        | inr other ↦ rw other (h, collapse_onto-NoneCollapses (some prev) s rest other)
      ]

  collapse_onto-eq :
      (s : TranscriptSegment) (ss : List TranscriptSegment)
      → NoneCollapses (some s) ss
      → collapse_onto is_space s ss ≡ s ∷ ss
  unfolding collapse_onto
  collapse_onto-eq s [] h = refl
  collapse_onto-eq s (r ∷ rs) (first, h) = rw first (ap (λ us. s ∷ us) (collapse_onto-eq r rs h))

  IsSaid-of_same :
      (s wide : TranscriptSegment) (out : List TranscriptSegment)
      → squeeze is_space wide.text ≡ squeeze is_space s.text
      → s.end_sec ≤ wide.end_sec
      → IsSaid wide out
      → IsSaid s out
  IsSaid-of_same s wide out e h (r, (m, f, l)) = (r, (m, f ∙ e, omega arith))

  IsSaid-cons :
      (s r : TranscriptSegment) (out : List TranscriptSegment) → IsSaid s out → IsSaid s (r ∷ out)
  IsSaid-cons s r out (u, (m, f, l)) = (u, (inr m, f, l))

  collapse_onto-IsSaid :
      (prev : TranscriptSegment) (rest : List TranscriptSegment) (s : TranscriptSegment)
      → In s (prev ∷ rest)
      → IsSaid s (collapse_onto is_space prev rest)
  unfolding collapse_onto
  collapse_onto-IsSaid prev [] s (inl e) = rw e (prev, (inl refl, refl, omega arith))
  collapse_onto-IsSaid prev [] s (inr m) = absurd m.1
  collapse_onto-IsSaid prev (r ∷ rest) s m = elim (Bool-cases (collapses is_space prev r)) [
    | inl same ↦
        let wide =
          collapse_onto-IsSaid (prolong is_space prev r) rest (prolong is_space prev r)
            (inl refl) in
        let equal =
          same_text-eq (squeeze is_space r.text) (squeeze is_space prev.text) (ground arith) in
        rw same (elim m [
          | inl e ↦ rw e (IsSaid-of_same prev (prolong is_space prev r) _ refl (omega arith) wide)
          | inr (inl e) ↦
              rw e (IsSaid-of_same r (prolong is_space prev r) _ (sym equal) (omega arith) wide)
          | inr (inr n) ↦ collapse_onto-IsSaid (prolong is_space prev r) rest s (inr n)
        ])
    | inr other ↦ rw other (elim m [
      | inl e ↦ rw e (prev, (inl refl, refl, omega arith))
      | inr n ↦ IsSaid-cons s prev _ (collapse_onto-IsSaid r rest s n)
    ])
  ]

  -- Every segment is said by one that is kept, but for white space, which ends no earlier.
  pub collapse_duplicate_adjacent_text-IsSaid :
      (segments : List TranscriptSegment) (s : TranscriptSegment)
      → In s segments
      → IsSaid s (collapse_duplicate_adjacent_text is_space segments)
  unfolding collapse_duplicate_adjacent_text
  collapse_duplicate_adjacent_text-IsSaid [] s m = absurd m.1
  collapse_duplicate_adjacent_text-IsSaid (r ∷ rs) s m = collapse_onto-IsSaid r rs s m

  -- What is kept has no long text twice in a row, and collapsing it again changes nothing.
  pub collapse_duplicate_adjacent_text-NoneCollapses :
      (segments : List TranscriptSegment)
      → NoneCollapses none (collapse_duplicate_adjacent_text is_space segments)
        × (collapse_duplicate_adjacent_text is_space
              (collapse_duplicate_adjacent_text is_space segments)
            ≡ collapse_duplicate_adjacent_text is_space segments)
  unfolding collapse_duplicate_adjacent_text
  collapse_duplicate_adjacent_text-NoneCollapses segments =
      let h = none_collapses segments in
      (h, again (collapse_duplicate_adjacent_text is_space segments) h)
    where
      none_collapses :
          (ss : List TranscriptSegment)
          → NoneCollapses none (collapse_duplicate_adjacent_text is_space ss)
      none_collapses [] = tt
      none_collapses (s ∷ ss) = collapse_onto-NoneCollapses none s ss tt

      again :
          (ss : List TranscriptSegment)
          → NoneCollapses none ss
          → collapse_duplicate_adjacent_text is_space ss ≡ ss
      again [] h = refl
      again (s ∷ ss) (_, h) = collapse_onto-eq s ss h
