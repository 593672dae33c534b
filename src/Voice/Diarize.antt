-- ===== src/Voice/Diarize.antt =====
-- runDiarization, hasDuplicatedTurnText, collapseDuplicateAdjacentText and transcribeWithDiarization of
-- apps/gateway/src/lib/voice/diarize.ts. What the diarizers and the recognizer answer is a parameter, and so
-- is the state in which the workers of transcribePerTurn end; `none` stands for what is thrown.
use Prim.Native.String.{String}
use modelforge_ai.Base.{
  ℕ, ◌+◌, max, Bool, true, false, ◌&&◌, Option, none, some, List, [], ◌∷◌, map, length,
  if◌then◌else◌, ltb, leb,
}
use modelforge_ai.Base.Preds.{any, filter}
use modelforge_ai.Base.Units.{Units}
use modelforge_ai.Voice.Turns.{DiarizationTurn, valid_turns}
use modelforge_ai.Voice.Segments.{TranscriptSegment, TranscriptArtifact, texts_of}
use modelforge_ai.Voice.Words.{squeeze}
use modelforge_ai.Voice.Normalize.{same_text, count_text}

pub data Backend : Type 0 where
  local_script cloud_api : Backend

pub data DiarizationMode : Type 0 where
  per_turn merge : DiarizationMode

pub record DiarizationConfig : Type 0 where
  pub enabled : Bool
  pub backend : Backend
  pub mode : DiarizationMode
  pub model : Units

-- The parsed output of the script: whether `ok` is not false, and the turns.
pub record ScriptOutput : Type 0 where
  pub is_ok : Bool
  pub turns : List DiarizationTurn

pub record SttProvider : Type 0 where
  pub name : String
  pub transcribe : Option String → Option String → Option TranscriptArtifact

pub record Labelled : Type 0 where
  pub segments : List TranscriptSegment
  pub stt_model : String
  pub language : String
  pub confidence : Option ℕ

abbrev pub turns_of_script : Option ScriptOutput → Option (List DiarizationTurn)
turns_of_script none = none
turns_of_script (some output) = if output.is_ok then some (valid_turns output.turns) else none

unfoldable pub run_diarization :
    Backend → Option ScriptOutput → Option (List DiarizationTurn) → Option (List DiarizationTurn)
run_diarization local_script script cloud = turns_of_script script
run_diarization cloud_api script cloud = cloud

-- toLowerCase on the letters of ASCII.
abbrev pub lower_unit : ℕ → ℕ
lower_unit c = if leb 65 c && leb c 90 then c + 32 else c

abbrev pub starts_with : Units → Units → Bool
starts_with text [] = true
starts_with [] (p ∷ ps) = false
starts_with (c ∷ cs) (p ∷ ps) = leb c p && leb p c && starts_with cs ps

unfoldable pub includes : Units → Units → Bool
includes [] part = starts_with [] part
includes (c ∷ cs) part =
    let later = includes cs part in if starts_with (c ∷ cs) part then true else later

-- "community"
abbrev pub community : Units
community = 99 ∷ 111 ∷ 109 ∷ 109 ∷ 117 ∷ 110 ∷ 105 ∷ 116 ∷ 121 ∷ []

unfoldable pub diarize_provider_tag : Backend → Units → String
diarize_provider_tag local_script model = "pyannote-local"
diarize_provider_tag cloud_api model =
    if includes (map lower_unit model) community
    then "pyannoteAI-community-1"
    else "pyannoteAI-precision-2"

module _ (is_space : ℕ → Bool) where
  abbrev pub long_texts : List TranscriptSegment → List Units
  long_texts segments =
      filter (λ (key : Units). leb 20 (length key)) (map (squeeze is_space) (texts_of segments))

  unfoldable pub has_duplicated_turn_text : List TranscriptSegment → ℕ → Bool
  has_duplicated_turn_text segments min_dupes =
      if ltb (length segments) min_dupes
      then false
      else any (λ key. leb min_dupes (count_text key (long_texts segments))) (long_texts segments)

  abbrev pub collapses : TranscriptSegment → TranscriptSegment → Bool
  collapses prev segment =
      leb 40 (length (squeeze is_space segment.text))
      && same_text (squeeze is_space segment.text) (squeeze is_space prev.text)

  abbrev pub prolong : TranscriptSegment → TranscriptSegment → TranscriptSegment
  prolong prev segment = record prev { end_sec = max prev.end_sec segment.end_sec }

  -- The loop, with the last segment of `out` apart.
  unfoldable pub collapse_onto : TranscriptSegment → List TranscriptSegment → List TranscriptSegment
  collapse_onto prev [] = prev ∷ []
  collapse_onto prev (segment ∷ rest) =
      let same = collapse_onto (prolong prev segment) rest in
      let other = collapse_onto segment rest in
      if collapses prev segment then same else prev ∷ other

  unfoldable pub collapse_duplicate_adjacent_text : List TranscriptSegment → List TranscriptSegment
  collapse_duplicate_adjacent_text [] = []
  collapse_duplicate_adjacent_text (segment ∷ rest) = collapse_onto segment rest
