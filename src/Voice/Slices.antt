-- ===== src/Voice/Slices.antt =====
-- sliceTextByTimeOverlap and mergeAsrSegmentsIntoTurns of apps/gateway/src/lib/voice/diarize.ts. The ratios,
-- which the code computes in floating point, are the exact fractions here.
use modelforge_ai.Base.{
  ℕ, ◌+◌, ◌-◌, ◌*◌, ◌/◌, min, max, Bool, not, Option, none, some, List, [], ◌∷◌, map, length, take,
  drop, if◌then◌else◌, ltb, leb,
}
use modelforge_ai.Base.Preds.{filter}
use modelforge_ai.Base.Units.{Units, is_empty, trim}
use modelforge_ai.Voice.Turns.{DiarizationTurn, sort_turns}
use modelforge_ai.Voice.Segments.{TranscriptSegment}
use modelforge_ai.Voice.Speakers.{overlap}
use modelforge_ai.Voice.Words.{words_of, join_words, squeeze}

-- Math.ceil of the fraction.
abbrev pub ceil_div : ℕ → ℕ → ℕ
ceil_div a b = (a + (b - 1)) / b

abbrev pub segment_duration : ℕ → ℕ → ℕ
segment_duration seg_start seg_end = max 10 (seg_end - seg_start)

-- Which of n words the slice begins with, and before which it ends.
abbrev pub first_word : ℕ → ℕ → ℕ → ℕ
first_word n duration offset = min (n - 1) (offset * n / duration)

abbrev pub end_word : ℕ → ℕ → ℕ → ℕ → ℕ
end_word n duration offset first = max (first + 1) (min n (ceil_div (offset * n) duration))

abbrev pub is_mostly_inside : ℕ → ℕ → Bool
is_mostly_inside overlapped duration = leb (85 * duration) (100 * overlapped)

abbrev pub words_between : List Units → ℕ → ℕ → List Units
words_between words first last = take (last - first) (drop first words)

-- The words of the slice, those of the whole segment where it is mostly inside.
unfoldable pub slice_words : List Units → ℕ → ℕ → ℕ → ℕ → List Units
slice_words [] seg_start seg_end slice_start slice_end = []
slice_words (w ∷ ws) seg_start seg_end slice_start slice_end =
    let duration = segment_duration seg_start seg_end in
    let overlap_start = max seg_start slice_start in
    let overlap_end = min seg_end slice_end in
    let n = length (w ∷ ws) in
    let first = first_word n duration (overlap_start - seg_start) in
    if leb overlap_end overlap_start
    then []
    else if is_mostly_inside (overlap_end - overlap_start) duration
    then w ∷ ws
    else words_between (w ∷ ws) first (end_word n duration (overlap_end - seg_start) first)

unfoldable pub insert_segment : TranscriptSegment → List TranscriptSegment → List TranscriptSegment
insert_segment s [] = s ∷ []
insert_segment s (r ∷ rs) =
    if leb s.start_sec r.start_sec then s ∷ r ∷ rs else r ∷ insert_segment s rs

-- .sort((a, b) => a.startSec - b.startSec)
unfoldable pub sort_segments : List TranscriptSegment → List TranscriptSegment
sort_segments [] = []
sort_segments (s ∷ ss) = insert_segment s (sort_segments ss)

abbrev pub has_text : TranscriptSegment → Bool
has_text s = not (is_empty s.text)

-- A segment as diarize.ts makes it, with the fields that it sets.
abbrev pub turn_segment : DiarizationTurn → Units → Option ℕ → TranscriptSegment
turn_segment turn said confident = record {
  start_sec = turn.start;
  end_sec = turn.end;
  text = said;
  text_en = none;
  confidence = confident;
  speaker = some turn.speaker;
  speaker_id = none;
}

module _ (is_space : ℕ → Bool) where
  -- The code trims only a part of the words; where it keeps them all there is nothing to trim.
  unfoldable pub slice_text_by_time_overlap : Units → ℕ → ℕ → ℕ → ℕ → Units
  slice_text_by_time_overlap text seg_start seg_end slice_start slice_end =
      trim is_space
        (join_words (slice_words (words_of is_space text) seg_start seg_end slice_start slice_end))

  abbrev pub overlapping : DiarizationTurn → List TranscriptSegment → List TranscriptSegment
  overlapping turn segments =
      sort_segments (filter (λ (s : TranscriptSegment). ltb 50 (overlap s turn)) segments)

  abbrev pub slice_for : DiarizationTurn → TranscriptSegment → Units
  slice_for turn s = slice_text_by_time_overlap s.text s.start_sec s.end_sec turn.start turn.end

  -- The slices that are not empty.
  unfoldable pub parts_of : DiarizationTurn → List TranscriptSegment → List Units
  parts_of turn segments =
      filter (λ part. not (is_empty part)) (map (slice_for turn) (overlapping turn segments))

  abbrev pub add_turn :
      DiarizationTurn → List Units → List TranscriptSegment → List TranscriptSegment
  add_turn turn [] out = out
  add_turn turn (part ∷ parts) out =
      turn_segment turn (squeeze is_space (join_words (part ∷ parts))) none ∷ out

  unfoldable pub merge_turns :
      List TranscriptSegment → List DiarizationTurn → List TranscriptSegment
  merge_turns segments [] = []
  merge_turns segments (turn ∷ turns) =
      add_turn turn (parts_of turn segments) (merge_turns segments turns)

  unfoldable pub merge_asr_segments_into_turns :
      List TranscriptSegment → List DiarizationTurn → List TranscriptSegment
  merge_asr_segments_into_turns segments [] = segments
  merge_asr_segments_into_turns segments (turn ∷ turns) =
      filter has_text (merge_turns segments (sort_turns (turn ∷ turns)))
