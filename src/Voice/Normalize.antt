-- ===== src/Voice/Normalize.antt =====
-- normalizeTranscript of apps/gateway/src/lib/voice/types.ts, with the filter of hallucinated texts and the
-- repair of timestamps. Texts have no surrogate pairs, so that a code unit is a character, and a twelfth of
-- a second for each character is rounded down to whole milliseconds.
use modelforge_ai.Base.{
  ℕ, suc, ◌+◌, ◌-◌, ◌*◌, ◌/◌, min, max, Bool, true, false, not, ◌&&◌, ◌||◌, Option, none, some,
  List, [], ◌∷◌, map, length, take, if◌then◌else◌, ltb, leb,
}
use modelforge_ai.Base.Text.{◌==◌, nat_eq}
use modelforge_ai.Base.Preds.{any, filter}
use modelforge_ai.Base.Units.{Units, is_empty, trim, visible}
use modelforge_ai.Voice.Segments.{TranscriptSegment, TranscriptArtifact, texts_of}
use modelforge_ai.Voice.Words.{join_words, squeeze}

-- `===` on texts.
unfoldable pub same_text : Units → Units → Bool
same_text [] [] = true
same_text (c ∷ cs) (d ∷ ds) = (c == d) && same_text cs ds
same_text cs ds = false

-- counts.get(key), once every key is counted.
unfoldable pub count_text : Units → List Units → ℕ
count_text key [] = 0
count_text key (k ∷ ks) = let rest = count_text key ks in if same_text k key then suc rest else rest

-- new Set(text).size
unfoldable pub distinct_units : Units → ℕ
distinct_units [] = 0
distinct_units (c ∷ cs) =
    let rest = distinct_units cs in if any (λ d. d == c) cs then rest else suc rest

-- The pieces of n code units, one from each place.
unfoldable pub grams : ℕ → Units → List Units
grams n [] = []
grams n (c ∷ cs) =
    let rest = grams n cs in if leb n (length (c ∷ cs)) then take n (c ∷ cs) ∷ rest else []

unfoldable pub top_count : List Units → List Units → ℕ
top_count keys [] = 0
top_count keys (k ∷ ks) = max (count_text k keys) (top_count keys ks)

abbrev pub repeats_gram : Units → ℕ → Bool
repeats_gram compact n =
    not (ltb (length compact) (n * 6))
    && leb (max 10 (length compact / (2 * n))) (top_count (grams n compact) (grams n compact))

unfoldable pub uses_lenient_hallucination_filter : ℕ → ℕ → ℕ → Bool
uses_lenient_hallucination_filter start_sec end_sec compact_len =
    if leb start_sec 35_000
    then true
    else ltb start_sec 5_000 && ltb (end_sec - start_sec) 3_000 && ltb 80 compact_len

abbrev pub is_monotonous : Units → ℕ → ℕ → Bool
is_monotonous compact longer few = ltb longer (length compact) && leb (distinct_units compact) few

abbrev pub repeats : Units → Bool
repeats compact = leb 12 (length compact) && any (repeats_gram compact) (2 ∷ 3 ∷ 4 ∷ [])

abbrev pub or_value : Option ℕ → ℕ → ℕ
or_value none value = value
or_value (some n) value = n

abbrev pub replacement : ℕ
replacement = 0xfffd

-- The two replacements of the code name the same character.
abbrev pub without_replacements : Units → Units
without_replacements text = filter (λ c. not (c == replacement)) text

abbrev pub last_end : List TranscriptSegment → Option ℕ
last_end [] = none
last_end (s ∷ []) = some s.end_sec
last_end (s ∷ r ∷ rs) = last_end (r ∷ rs)

module _ (is_space : ℕ → Bool) where
  unfoldable pub strip_replacement_chars : Units → Units
  strip_replacement_chars text = trim is_space (without_replacements text)

  unfoldable pub clean_text : Units → Units
  clean_text text = strip_replacement_chars (squeeze is_space text)

  abbrev pub compact_repeats : Units → ℕ → ℕ → Bool
  compact_repeats compact start end =
      if uses_lenient_hallucination_filter start end (length compact)
      then is_monotonous compact 200 4
      else is_monotonous compact 80 6 || repeats compact

  unfoldable pub is_hallucinated_transcript_text : Units → ℕ → Option ℕ → Bool
  is_hallucinated_transcript_text text start_sec end_sec =
      is_empty (clean_text text)
      || compact_repeats (visible is_space (clean_text text)) start_sec (or_value end_sec start_sec)

  abbrev pub compact_length : TranscriptSegment → ℕ
  compact_length s = length (visible is_space s.text)

  -- The four changes of the end of a segment, in their order.
  abbrev pub end_of_collapsed : ℕ → ℕ → TranscriptSegment → ℕ
  end_of_collapsed duration next_start s =
      if ltb (s.end_sec - s.start_sec) 3_000 && ltb 60 (compact_length s)
      then if ltb s.start_sec next_start
        then next_start
        else min duration (s.start_sec + max 3_000 (compact_length s * 1_000 / 12))
      else s.end_sec

  abbrev pub end_at_next : Option TranscriptSegment → ℕ → ℕ
  end_at_next none end = end
  end_at_next (some next) end = if ltb (end + 2_000) next.start_sec then next.start_sec else end

  abbrev pub end_if_before : ℕ → ℕ → ℕ → ℕ
  end_if_before duration start end = if leb end start && ltb start duration then duration else end

  abbrev pub end_within : ℕ → ℕ → ℕ
  end_within duration end = if ltb 0 duration then min end duration else end

  abbrev pub start_of_next : ℕ → Option TranscriptSegment → ℕ
  start_of_next duration none = duration
  start_of_next duration (some next) = next.start_sec

  unfoldable pub repair_segment :
      ℕ → Option TranscriptSegment → TranscriptSegment → TranscriptSegment
  repair_segment duration next s =
      let spread = end_of_collapsed duration (start_of_next duration next) s in
      let reaching = end_at_next next spread in
      let after = end_if_before duration s.start_sec reaching in
      record s { end_sec = max (end_within duration after) s.start_sec }

  unfoldable pub repair_from : ℕ → List TranscriptSegment → List TranscriptSegment
  repair_from duration [] = []
  repair_from duration (s ∷ []) = repair_segment duration none s ∷ []
  repair_from duration (s ∷ r ∷ rs) =
      repair_segment duration (some r) s ∷ repair_from duration (r ∷ rs)

  unfoldable pub repair_segment_timestamps :
      List TranscriptSegment → Option ℕ → List TranscriptSegment
  repair_segment_timestamps segments duration_sec =
      repair_from (or_value duration_sec (or_value (last_end segments) 0)) segments

  abbrev pub cleaned : TranscriptSegment → TranscriptSegment
  cleaned s = record s { text = clean_text s.text }

  abbrev pub is_kept : TranscriptSegment → Bool
  is_kept s =
      ltb 0 (length s.text)
      && not (is_hallucinated_transcript_text s.text s.start_sec (some s.end_sec))

  unfoldable pub kept_segments : List TranscriptSegment → List TranscriptSegment
  kept_segments segments = filter is_kept (map cleaned segments)

  abbrev pub longer_of : TranscriptSegment → TranscriptSegment → TranscriptSegment
  longer_of longest s =
      if leb (length (strip_replacement_chars longest.text))
        (length (strip_replacement_chars s.text))
      then s
      else longest

  unfoldable pub longest_from : TranscriptSegment → List TranscriptSegment → TranscriptSegment
  longest_from longest [] = longest
  longest_from longest (s ∷ ss) = longest_from (longer_of longest s) ss

  abbrev pub with_repaired : TranscriptArtifact → List TranscriptSegment → TranscriptArtifact
  with_repaired input kept =
      let repaired = repair_segment_timestamps kept (last_end kept) in
      record input { text = squeeze is_space (join_words (texts_of repaired)); segments = repaired }

  -- No segment is kept.
  abbrev pub with_longest : TranscriptArtifact → List TranscriptSegment → TranscriptArtifact
  with_longest input [] = with_repaired input []
  with_longest input (s ∷ ss) =
      let best = cleaned (longest_from s ss) in
      if leb 8 (length best.text)
      then record input { text = best.text; segments = best ∷ [] }
      else with_repaired input []

  abbrev pub normalize_kept : TranscriptArtifact → List TranscriptSegment → TranscriptArtifact
  normalize_kept input [] = with_longest input input.segments
  normalize_kept input (s ∷ ss) = with_repaired input (s ∷ ss)

  unfoldable pub normalize_transcript : TranscriptArtifact → TranscriptArtifact
  normalize_transcript input = normalize_kept input (kept_segments input.segments)
