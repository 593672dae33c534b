-- ===== src/Voice/Timestamps.antt =====
-- What repairSegmentTimestamps and normalizeTranscript of apps/gateway/src/lib/voice/types.ts keep.
use Prim.Native.String.{String}
use modelforge_ai.Base.{
  ℕ, ◌+◌, ◌≤◌, ◌<◌, max, ◌≡◌, refl, ◌⊎◌, inl, inr, Bool, true, false, Option, none, some, List, [],
  ◌∷◌, map, arith, if◌then◌else◌, leb, length, Bool-cases,
}
use modelforge_ai.Base.Preds.{All, filter}
use modelforge_ai.Retrieval.Kept.{All-filter}
use modelforge_ai.Voice.Segments.{TranscriptSegment, TranscriptArtifact}
use modelforge_ai.Voice.Normalize.{
  repair_segment, repair_from, cleaned, is_kept, kept_segments, longer_of, longest_from,
  with_longest, normalize_kept, normalize_transcript, or_value, last_end, repair_segment_timestamps,
}

-- Where the next segment begins within the recording, no more than two seconds before it are left out.
abbrev pub Reaches : ℕ → Option TranscriptSegment → ℕ → Type 0
Reaches duration none end = Unit
Reaches duration (some next) end = (duration < next.start_sec) ⊎ (next.start_sec ≤ end + 2_000)

abbrev pub IsRepaired :
    ℕ → Option TranscriptSegment → TranscriptSegment → TranscriptSegment → Type 0
IsRepaired duration next s r =
    (r ≡ record s { end_sec = r.end_sec })
    × (s.start_sec ≤ r.end_sec)
    × ((duration ≡ 0) ⊎ (r.end_sec ≤ max duration s.start_sec))
    × Reaches duration next r.end_sec

abbrev pub first_of : List TranscriptSegment → Option TranscriptSegment
first_of [] = none
first_of (s ∷ ss) = some s

abbrev pub AreRepaired : ℕ → List TranscriptSegment → List TranscriptSegment → Type 0
AreRepaired duration [] out = out ≡ []
AreRepaired duration (s ∷ ss) [] = Unit × ⊥
AreRepaired duration (s ∷ ss) (r ∷ rs) =
    IsRepaired duration (first_of ss) s r × AreRepaired duration ss rs

module _ (is_space : ℕ → Bool) where
  repair_segment-IsRepaired :
      (duration : ℕ) (next : Option TranscriptSegment) (s : TranscriptSegment)
      → IsRepaired duration next s (repair_segment is_space duration next s)
  unfolding repair_segment
  repair_segment-IsRepaired duration none s = (refl, omega arith, ground arith, tt)
  repair_segment-IsRepaired duration (some next) s = (refl, omega arith, ground arith, ground arith)

  repair_from-AreRepaired :
      (duration : ℕ) (ss : List TranscriptSegment)
      → AreRepaired duration ss (repair_from is_space duration ss)
  unfolding repair_from
  repair_from-AreRepaired duration [] = refl
  repair_from-AreRepaired duration (s ∷ []) = (repair_segment-IsRepaired duration none s, refl)
  repair_from-AreRepaired duration (s ∷ r ∷ rs) =
      (repair_segment-IsRepaired duration (some r) s, repair_from-AreRepaired duration (r ∷ rs))

  -- The repair changes only ends: none is before its start; none is after the end of the recording, if that
  -- is known and positive, and the start; and up to two seconds are left out before the next segment, if that
  -- begins within the recording.
  pub repair_segment_timestamps-AreRepaired :
      (segments : List TranscriptSegment) (duration_sec : Option ℕ)
      → AreRepaired
          (or_value duration_sec (or_value (last_end segments) 0))
          segments
          (repair_segment_timestamps is_space segments duration_sec)
  unfolding repair_segment_timestamps
  repair_segment_timestamps-AreRepaired segments duration_sec = repair_from-AreRepaired _ segments

  -- What does not look at texts and ends of segments.
  module _ (P : Option String → ℕ → Type 0) where
    abbrev pub Holds : TranscriptSegment → Type 0
    Holds s = P s.speaker s.start_sec

    repair_from-All :
        (duration : ℕ) (ss : List TranscriptSegment)
        → All Holds ss
        → All Holds (repair_from is_space duration ss)
    unfolding repair_from repair_segment
    repair_from-All duration [] h = tt
    repair_from-All duration (s ∷ []) h = h
    repair_from-All duration (s ∷ r ∷ rs) (first, h) = (first, repair_from-All duration (r ∷ rs) h)

    map-cleaned-All :
        (ss : List TranscriptSegment) → All Holds ss → All Holds (map (cleaned is_space) ss)
    map-cleaned-All [] h = tt
    map-cleaned-All (s ∷ ss) (first, h) = (first, map-cleaned-All ss h)

    longest_from-Holds :
        (longest : TranscriptSegment) (ss : List TranscriptSegment)
        → Holds longest
        → All Holds ss
        → Holds (longest_from is_space longest ss)
    unfolding longest_from
    longest_from-Holds longest [] k h = k
    longest_from-Holds longest (s ∷ ss) k (first, h) =
        longest_from-Holds (longer_of is_space longest s) ss (chosen k first) h
      where
        chosen : Holds longest → Holds s → Holds (longer_of is_space longest s)
        chosen k first = if_holds (leb _ _)
          where
            if_holds : (b : Bool) → Holds (if b then s else longest)
            if_holds true = first
            if_holds false = k

    with_longest-All :
        (input : TranscriptArtifact) (ss : List TranscriptSegment)
        → All Holds ss
        → All Holds (with_longest is_space input ss).segments
    unfolding repair_segment_timestamps repair_from
    with_longest-All input [] h = tt
    with_longest-All input (s ∷ ss) (first, h) =
        elim (Bool-cases (leb 8 (length (cleaned is_space (longest_from is_space s ss)).text))) [
          | inl long ↦ rw long (longest_from-Holds s ss first h, tt)
          | inr short ↦ rw short tt
        ]

    normalize_kept-All :
        (input : TranscriptArtifact) (kept : List TranscriptSegment)
        → All Holds input.segments
        → All Holds kept
        → All Holds (normalize_kept is_space input kept).segments
    unfolding repair_segment_timestamps
    normalize_kept-All input [] h k = with_longest-All input input.segments h
    normalize_kept-All input (s ∷ ss) h k = repair_from-All _ (s ∷ ss) k

    -- What holds of the speaker and the start of every segment holds of those that are normalized.
    pub normalize_transcript-All :
        (input : TranscriptArtifact)
        → All Holds input.segments
        → All Holds (normalize_transcript is_space input).segments
    unfolding normalize_transcript kept_segments
    normalize_transcript-All input h =
        normalize_kept-All input (kept_segments is_space input.segments) h
          (All-filter Holds (is_kept is_space) _ (map-cleaned-All input.segments h))

  abbrev pub HasText : TranscriptSegment → Type 0
  HasText s = 0 < length s.text

  repair_from-HasText :
      (duration : ℕ) (ss : List TranscriptSegment)
      → All HasText ss
      → All HasText (repair_from is_space duration ss)
  unfolding repair_from repair_segment
  repair_from-HasText duration [] h = tt
  repair_from-HasText duration (s ∷ []) h = h
  repair_from-HasText duration (s ∷ r ∷ rs) (first, h) =
      (first, repair_from-HasText duration (r ∷ rs) h)

  filter_kept-HasText : (ss : List TranscriptSegment) → All HasText (filter (is_kept is_space) ss)
  filter_kept-HasText [] = tt
  filter_kept-HasText (s ∷ ss) = elim (Bool-cases (is_kept is_space s)) [
    | inl kept ↦ rw kept (ground arith, filter_kept-HasText ss)
    | inr gone ↦ rw gone (filter_kept-HasText ss)
  ]

  with_longest-HasText :
      (input : TranscriptArtifact) (ss : List TranscriptSegment)
      → All HasText (with_longest is_space input ss).segments
  unfolding repair_segment_timestamps repair_from
  with_longest-HasText input [] = tt
  with_longest-HasText input (s ∷ ss) =
      elim (Bool-cases (leb 8 (length (cleaned is_space (longest_from is_space s ss)).text))) [
        | inl long ↦ rw long (ground arith, tt)
        | inr short ↦ rw short tt
      ]

  normalize_kept-HasText :
      (input : TranscriptArtifact) (kept : List TranscriptSegment)
      → All HasText kept
      → All HasText (normalize_kept is_space input kept).segments
  unfolding repair_segment_timestamps
  normalize_kept-HasText input [] h = with_longest-HasText input input.segments
  normalize_kept-HasText input (s ∷ ss) h = repair_from-HasText _ (s ∷ ss) h

  -- No segment of a normalized transcript is without text.
  pub normalize_transcript-HasText :
      (input : TranscriptArtifact) → All HasText (normalize_transcript is_space input).segments
  unfolding normalize_transcript kept_segments
  normalize_transcript-HasText input =
      normalize_kept-HasText input _ (filter_kept-HasText (map (cleaned is_space) input.segments))
