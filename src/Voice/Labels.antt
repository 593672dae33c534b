-- ===== src/Voice/Labels.antt =====
-- The speakers of a transcript with diarization are those of the turns (apps/gateway/src/lib/voice/
-- diarize.ts).
use Prim.Native.String.{String}
use modelforge_ai.Base.{
  ℕ, ◌≡◌, refl, sym, ap, subst, inl, inr, Bool, Option, none, some, List, [], ◌∷◌, map, Bool-cases,
  leb,
}
use modelforge_ai.Base.Text.{text_eq}
use modelforge_ai.Base.Preds.{All, In}
use modelforge_ai.Base.Units.{Units, trim}
use modelforge_ai.Retrieval.Kept.{All-filter}
use modelforge_ai.Voice.Turns.{
  DiarizationTurn, insert_turn, sort_turns, joins, extend, coalesce_onto, coalesce_sorted,
  coalesce_turns,
}
use modelforge_ai.Voice.Segments.{TranscriptSegment}
use modelforge_ai.Voice.Nearest.{AreAssigned}
use modelforge_ai.Voice.Slices.{
  insert_segment, sort_segments, turn_segment, has_text, parts_of, add_turn, merge_turns,
  merge_asr_segments_into_turns,
}
use modelforge_ai.Voice.Diarize.{
  collapses, prolong, collapse_onto, collapse_duplicate_adjacent_text,
}
use modelforge_ai.Voice.Workers.{
  ClipAnswer, heard, cut_failed, asr_failed, PerTurnInput, eligible_turns, present, outcome,
  said_in, segment_of,
}

pub at_In : {A : Type 0} (P : A → Type 0) (xs : List A) (a : A) → All P xs → In a xs → P a
at_In P [] a h m = absurd m.1
at_In P (x ∷ xs) a (first, h) (inl e) = subst P (sym e) first
at_In P (x ∷ xs) a (first, h) (inr m) = at_In P xs a h m

module _ (P : String → Type 0) where
  abbrev pub TurnHas : DiarizationTurn → Type 0
  TurnHas t = P t.speaker

  abbrev pub SegmentHas : Option String → ℕ → Type 0
  SegmentHas speaker start = (name : String) × ((speaker ≡ some name) × P name)

  abbrev pub IsLabelled : TranscriptSegment → Type 0
  IsLabelled s = SegmentHas s.speaker s.start_sec

  insert_turn-All :
      (t : DiarizationTurn) (ts : List DiarizationTurn)
      → TurnHas t
      → All TurnHas ts
      → All TurnHas (insert_turn t ts)
  unfolding insert_turn
  insert_turn-All t [] first h = (first, tt)
  insert_turn-All t (u ∷ us) first (second, h) = elim (Bool-cases (leb t.start u.start)) [
    | inl le ↦ rw le (first, (second, h))
    | inr gt ↦ rw gt (second, insert_turn-All t us first h)
  ]

  pub sort_turns-All : (ts : List DiarizationTurn) → All TurnHas ts → All TurnHas (sort_turns ts)
  unfolding sort_turns
  sort_turns-All [] h = tt
  sort_turns-All (t ∷ ts) (first, h) = insert_turn-All t (sort_turns ts) first (sort_turns-All ts h)

  coalesce_onto-All :
      (gap : ℕ) (prev : DiarizationTurn) (rest : List DiarizationTurn)
      → TurnHas prev
      → All TurnHas rest
      → All TurnHas (coalesce_onto gap prev rest)
  unfolding coalesce_onto
  coalesce_onto-All gap prev [] first h = (first, tt)
  coalesce_onto-All gap prev (cur ∷ rest) first (second, h) =
      elim (Bool-cases (joins gap prev cur)) [
        | inl joined ↦ rw joined (coalesce_onto-All gap (extend prev cur) rest first h)
        | inr other ↦ rw other (first, coalesce_onto-All gap cur rest second h)
      ]

  pub coalesce_turns-All :
      (ts : List DiarizationTurn) (gap : ℕ) → All TurnHas ts → All TurnHas (coalesce_turns ts gap)
  unfolding coalesce_turns
  coalesce_turns-All ts gap h = of_sorted (sort_turns ts) (sort_turns-All ts h)
    where
      of_sorted :
          (us : List DiarizationTurn) → All TurnHas us → All TurnHas (coalesce_sorted gap us)
      of_sorted [] k = tt
      of_sorted (u ∷ us) (first, k) = coalesce_onto-All gap u us first k

  pub assigned-All :
      (ts : List DiarizationTurn) (ss rs : List TranscriptSegment)
      → All TurnHas ts
      → AreAssigned ts ss rs
      → All IsLabelled rs
  assigned-All ts [] rs h k = rw k tt
  assigned-All ts (s ∷ ss) [] h k = absurd k.1
  assigned-All ts (s ∷ ss) (r ∷ rs) h (_, (u, (m, e, _)), k) =
      ((u.speaker, (e, at_In TurnHas ts u h m)), assigned-All ts ss rs h k)

  module _ (is_space : ℕ → Bool) where
    merge_turns-All :
        (ss : List TranscriptSegment) (ts : List DiarizationTurn)
        → All TurnHas ts
        → All IsLabelled (merge_turns is_space ss ts)
    unfolding merge_turns
    merge_turns-All ss [] h = tt
    merge_turns-All ss (t ∷ ts) (first, h) =
        added (parts_of is_space t ss) (merge_turns-All ss ts h)
      where
        added :
            (parts : List Units)
            → All IsLabelled (merge_turns is_space ss ts)
            → All IsLabelled (add_turn is_space t parts (merge_turns is_space ss ts))
        added [] k = k
        added (part ∷ parts) k = ((t.speaker, (refl, first)), k)

    pub merge_asr_segments_into_turns-All :
        (ss : List TranscriptSegment) (t : DiarizationTurn) (ts : List DiarizationTurn)
        → All TurnHas (t ∷ ts)
        → All IsLabelled (merge_asr_segments_into_turns is_space ss (t ∷ ts))
    unfolding merge_asr_segments_into_turns
    merge_asr_segments_into_turns-All ss t ts h =
        All-filter IsLabelled has_text _
          (merge_turns-All ss (sort_turns (t ∷ ts)) (sort_turns-All (t ∷ ts) h))

    collapse_onto-All :
        (prev : TranscriptSegment) (rest : List TranscriptSegment)
        → IsLabelled prev
        → All IsLabelled rest
        → All IsLabelled (collapse_onto is_space prev rest)
    unfolding collapse_onto
    collapse_onto-All prev [] first h = (first, tt)
    collapse_onto-All prev (s ∷ rest) first (second, h) =
        elim (Bool-cases (collapses is_space prev s)) [
          | inl same ↦ rw same (collapse_onto-All (prolong is_space prev s) rest first h)
          | inr other ↦ rw other (first, collapse_onto-All s rest second h)
        ]

    pub collapse_duplicate_adjacent_text-All :
        (ss : List TranscriptSegment)
        → All IsLabelled ss
        → All IsLabelled (collapse_duplicate_adjacent_text is_space ss)
    unfolding collapse_duplicate_adjacent_text
    collapse_duplicate_adjacent_text-All [] h = tt
    collapse_duplicate_adjacent_text-All (s ∷ ss) (first, h) = collapse_onto-All s ss first h

    module _ (hear : ℕ → ℕ → ClipAnswer) (input : PerTurnInput) where
      -- What a clip gives, if it gives anything, has the speaker of its turn.
      present-All :
          (ts : List DiarizationTurn)
          → All TurnHas ts
          → All IsLabelled (present (map (outcome is_space hear input) ts))
      present-All [] h = tt
      present-All (t ∷ ts) (first, h) =
          added (outcome is_space hear input t) (λ s e. of_answer _ s e) (present-All ts h)
        where
          of_said :
              (text : Units) (confidence : Option ℕ) (s : TranscriptSegment)
              → said_in is_space hear t text confidence ≡ some s
              → IsLabelled s
          of_said [] confidence s e = cc
          of_said (c ∷ cs) confidence s e =
              let k : turn_segment t (c ∷ cs) confidence ≡ s = cc in
              (t.speaker, (sym (ap (λ (r : TranscriptSegment). r.speaker) k), first))

          of_answer :
              (a : ClipAnswer) (s : TranscriptSegment)
              → segment_of is_space hear t a ≡ some s
              → IsLabelled s
          of_answer cut_failed s e = cc
          of_answer asr_failed s e = cc
          of_answer (heard model language text confidence) s e =
              of_said (trim is_space text) confidence s e

          added :
              (o : Option TranscriptSegment)
              → ((s : TranscriptSegment) → o ≡ some s → IsLabelled s)
              → All IsLabelled (present (map (outcome is_space hear input) ts))
              → All IsLabelled (present (o ∷ map (outcome is_space hear input) ts))
          added none k l = l
          added (some s) k l = (k s refl, l)

      insert_segment-All :
          (s : TranscriptSegment) (ss : List TranscriptSegment)
          → IsLabelled s
          → All IsLabelled ss
          → All IsLabelled (insert_segment s ss)
      unfolding insert_segment
      insert_segment-All s [] first h = (first, tt)
      insert_segment-All s (r ∷ rs) first (second, h) =
          elim (Bool-cases (leb s.start_sec r.start_sec)) [
            | inl le ↦ rw le (first, (second, h))
            | inr gt ↦ rw gt (second, insert_segment-All s rs first h)
          ]

      sort_segments-All :
          (ss : List TranscriptSegment) → All IsLabelled ss → All IsLabelled (sort_segments ss)
      unfolding sort_segments
      sort_segments-All [] h = tt
      sort_segments-All (s ∷ ss) (first, h) =
          insert_segment-All s (sort_segments ss) first (sort_segments-All ss h)

      pub heard-All :
          All TurnHas input.turns
          → All IsLabelled
              (sort_segments (present (map (outcome is_space hear input) (eligible_turns input))))
      heard-All h =
          sort_segments-All _
            (present-All (eligible_turns input) (All-filter TurnHas _ input.turns h))
