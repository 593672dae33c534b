-- ===== src/Voice/Transcribe.antt =====
-- transcribeWithDiarization and toPublicTranscript of apps/gateway/src/lib/voice/diarize.ts: diarization
-- first, then the recognizer, with the ways out where one of them gives nothing. What the diarizers, the
-- recognizer and the workers of transcribePerTurn give is a parameter.
use Prim.Native.String.{String, ◌++◌ as ◌+++◌}
use modelforge_ai.Base.{
  ℕ, Bool, not, ◌&&◌, Option, none, some, List, [], ◌∷◌, length, if◌then◌else◌, ltb,
}
use modelforge_ai.Base.Text.{text_eq}
use modelforge_ai.Voice.Turns.{DiarizationTurn, coalesce_turns, gap_ms}
use modelforge_ai.Voice.Segments.{TranscriptSegment, TranscriptArtifact, texts_of}
use modelforge_ai.Voice.Speakers.{assign_speakers_to_segments}
use modelforge_ai.Voice.Words.{join_words}
use modelforge_ai.Voice.Slices.{merge_asr_segments_into_turns}
use modelforge_ai.Voice.Normalize.{normalize_transcript}
use modelforge_ai.Voice.Workers.{PerTurnInput, PerTurn, or_else}
use modelforge_ai.Voice.Diarize.{
  DiarizationConfig, DiarizationMode, per_turn, merge, ScriptOutput, SttProvider, Labelled,
  run_diarization, diarize_provider_tag, has_duplicated_turn_text, collapse_duplicate_adjacent_text,
}

pub record VoiceInput : Type 0 where
  pub stt : SttProvider
  pub diarization : DiarizationConfig
  pub language : Option String
  pub initial_prompt : Option String

-- What the script and the service answer for the recording.
pub record Diarizers : Type 0 where
  pub script : Option ScriptOutput
  pub cloud : Option (List DiarizationTurn)

abbrev pub with_tag : TranscriptArtifact → String → TranscriptArtifact
with_tag plain tag = record plain { provider = plain.provider +++ tag }

abbrev pub with_tag_if_any : Option TranscriptArtifact → String → Option TranscriptArtifact
with_tag_if_any none tag = none
with_tag_if_any (some plain) tag = some (with_tag plain tag)

-- input.stt.transcribe on the whole recording.
abbrev pub transcribe_whole : VoiceInput → Option TranscriptArtifact
transcribe_whole input = input.stt.transcribe input.language input.initial_prompt

-- What transcribePerTurn is called with.
abbrev pub per_turn_input : VoiceInput → Option ℕ → Option ℕ → List DiarizationTurn → PerTurnInput
per_turn_input input pad concurrency turns = record {
  turns = turns;
  language = input.language;
  turn_pad_ms = pad;
  concurrency = concurrency;
}

abbrev pub unlabelled : VoiceInput → Labelled
unlabelled input = record {
  segments = [];
  stt_model = "unknown";
  language = or_else input.language "unknown";
  confidence = none;
}

abbrev pub assign_if_empty :
    List TranscriptSegment → List TranscriptSegment → List DiarizationTurn → List TranscriptSegment
assign_if_empty [] segments turns = assign_speakers_to_segments segments turns
assign_if_empty (s ∷ ss) segments turns = s ∷ ss

module _ (is_space : ℕ → Bool) where
  abbrev pub of_turns : PerTurn → Labelled
  of_turns result = record {
    segments = collapse_duplicate_adjacent_text is_space result.segments;
    stt_model = result.model;
    language = result.language;
    confidence = none;
  }

  -- Both ways take the segments of the turns, as in the code.
  abbrev pub label_turns : VoiceInput → PerTurn → Labelled
  label_turns input result =
      if ltb 0 (length result.segments) && not (has_duplicated_turn_text is_space result.segments 3)
      then of_turns result
      else if ltb 0 (length result.segments)
      then of_turns result
      else unlabelled input

  abbrev pub label_by_mode : DiarizationMode → VoiceInput → PerTurn → Labelled
  label_by_mode per_turn input result = label_turns input result
  label_by_mode merge input result = unlabelled input

  abbrev pub label_whole : List DiarizationTurn → TranscriptArtifact → Labelled
  label_whole turns plain = record {
    segments = collapse_duplicate_adjacent_text is_space (
        assign_if_empty (merge_asr_segments_into_turns is_space plain.segments turns) plain.segments
          turns);
    stt_model = plain.model;
    language = plain.language;
    confidence = plain.confidence;
  }

  abbrev pub aligned : VoiceInput → Labelled → TranscriptArtifact
  aligned input labelled = normalize_transcript is_space (record {
    language = labelled.language;
    text = join_words (texts_of labelled.segments);
    text_en = none;
    dialect_hint = none;
    dialect_label = none;
    speaker_names = [];
    names_mentioned = [];
    confidence = labelled.confidence;
    model = labelled.stt_model;
    segments = labelled.segments;
    provider =
        input.stt.name
        +++ "+"
        +++ diarize_provider_tag input.diarization.backend input.diarization.model;
  })

  abbrev pub align_whole :
      VoiceInput → List DiarizationTurn → Option TranscriptArtifact → Option TranscriptArtifact
  align_whole input turns none = none
  align_whole input turns (some plain) = some (aligned input (label_whole turns plain))

  abbrev pub align_if_labelled :
      VoiceInput
      → List DiarizationTurn
      → Labelled
      → List TranscriptSegment
      → Option TranscriptArtifact
  align_if_labelled input turns labelled [] = align_whole input turns (transcribe_whole input)
  align_if_labelled input turns labelled (s ∷ ss) = some (aligned input labelled)

  module _ (transcribe_per_turn : List DiarizationTurn → PerTurn) where
    abbrev pub labels : VoiceInput → List DiarizationTurn → Labelled
    labels input turns = label_by_mode input.diarization.mode input (transcribe_per_turn turns)

    -- By what coalesceTurns leaves.
    unfoldable pub with_turns : VoiceInput → List DiarizationTurn → Option TranscriptArtifact
    with_turns input [] = with_tag_if_any (transcribe_whole input) "+diarize-empty"
    with_turns input (t ∷ ts) =
        align_if_labelled input (t ∷ ts) (labels input (t ∷ ts)) (labels input (t ∷ ts)).segments

    unfoldable pub with_diarization :
        VoiceInput → Option (List DiarizationTurn) → Option TranscriptArtifact
    with_diarization input none = with_tag_if_any (transcribe_whole input) "+diarize-failed"
    with_diarization input (some raw_turns) = with_turns input (coalesce_turns raw_turns gap_ms)

    unfoldable pub transcribe_with_diarization : VoiceInput → Diarizers → Option TranscriptArtifact
    transcribe_with_diarization input diarizers =
        if input.diarization.enabled
        then with_diarization input
            (run_diarization input.diarization.backend diarizers.script diarizers.cloud)
        else transcribe_whole input
