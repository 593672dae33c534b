-- ===== src/Voice/Examples.antt =====
-- Tests of the voice modules, and their theorems at concrete inputs.
use modelforge_ai.Base.{
  ℕ, ◌*◌, ◌≤◌, ◌≡◌, refl, inl, inr, Bool, true, none, some, List, [], ◌∷◌, length, if◌then◌else◌,
  ◌==◌,
}
use modelforge_ai.Base.Units.{Units, trim, trim_end, trim_start}
use modelforge_ai.Voice.Turns.{DiarizationTurn, gap_ms, alternating_turns, coalesce_turns}
use modelforge_ai.Voice.Sorted.{Ascending}
use modelforge_ai.Voice.Coalesced.{Apart, coalesce_turns-settled}
use modelforge_ai.Voice.Segments.{TranscriptSegment, TranscriptArtifact}
use modelforge_ai.Voice.Speakers.{assign_speakers_to_segments}
use modelforge_ai.Voice.Nearest.{AreNamed, AreAssigned, assign_speakers_to_segments-AreAssigned}
use modelforge_ai.Voice.Slices.{slice_words, sort_segments}
use modelforge_ai.Voice.Words.{join_words}
use modelforge_ai.Voice.Normalize.{repair_segment_timestamps}
use modelforge_ai.Voice.Timestamps.{AreRepaired, repair_segment_timestamps-AreRepaired}
use modelforge_ai.Voice.Workers.{
  ClipAnswer, heard, asr_failed, PerTurnInput, PerTurnState, PerTurn, WorkerEvent, takes, answers,
  eligible_turns, start_workers, run_workers, worker_step, is_done, per_turn_of, present,
}
use modelforge_ai.Voice.Schedules.{outcomes, per_turn_of-any_order}
use modelforge_ai.Voice.Ending.{run_workers_ends}
use modelforge_ai.Voice.Diarize.{per_turn, local_script, SttProvider, run_diarization}
use modelforge_ai.Voice.Transcribe.{
  VoiceInput, Diarizers, per_turn_input, transcribe_with_diarization,
}
use modelforge_ai.Voice.Outcome.{HasSpeakers, IsOfWorkers, transcribe_with_diarization-HasSpeakers}

abbrev blank : ℕ → Bool
blank c = c == 32

abbrev segment : ℕ → ℕ → Units → TranscriptSegment
segment start end said = record {
  start_sec = start;
  end_sec = end;
  text = said;
  text_en = none;
  confidence = none;
  speaker = none;
  speaker_id = none;
}

coalesce_turns-settled_example :
    Ascending 0 (coalesce_turns alternating_turns gap_ms)
    × Apart gap_ms none (coalesce_turns alternating_turns gap_ms)
    × (coalesce_turns (coalesce_turns alternating_turns gap_ms) gap_ms
        ≡ coalesce_turns alternating_turns gap_ms)
coalesce_turns-settled_example = coalesce_turns-settled alternating_turns gap_ms

abbrev first_speaks : DiarizationTurn
first_speaks = record { start = 0; end = 1_000; speaker = "A" }

abbrev second_speaks : DiarizationTurn
second_speaks = record { start = 1_000; end = 3_000; speaker = "B" }

abbrev two_turns : List DiarizationTurn
two_turns = first_speaks ∷ second_speaks ∷ []

two_turns-AreNamed : AreNamed two_turns
two_turns-AreNamed t (inl e) = rw e refl
two_turns-AreNamed t (inr (inl e)) = rw e refl
two_turns-AreNamed t (inr (inr m)) = absurd m.1

-- "hi", "yes"
abbrev hi : Units
hi = 104 ∷ 105 ∷ []

abbrev yes : Units
yes = 121 ∷ 101 ∷ 115 ∷ []

abbrev overlapping_segments : List TranscriptSegment
overlapping_segments = segment 800 1_500 hi ∷ segment 9_000 9_500 yes ∷ []

assign_speakers_to_segments-AreAssigned_example :
    AreAssigned two_turns overlapping_segments
      (assign_speakers_to_segments overlapping_segments two_turns)
assign_speakers_to_segments-AreAssigned_example =
    assign_speakers_to_segments-AreAssigned overlapping_segments first_speaks (second_speaks ∷ [])
      two_turns-AreNamed

abbrev four_words : List Units
four_words = hi ∷ yes ∷ hi ∷ yes ∷ []

-- The words of three seconds, in which the second turn begins after one.
abbrev spoken : TranscriptSegment
spoken = record {
  start_sec = 0;
  end_sec = 3_000;
  text = join_words four_words;
  text_en = none;
  confidence = none;
  speaker = none;
  speaker_id = none;
}

slices_first_words : slice_words four_words 0 3_000 0 1_000 ≡ hi ∷ yes ∷ []
unfolding slice_words
slices_first_words = refl

repair_segment_timestamps-AreRepaired_example :
    AreRepaired 9_500 overlapping_segments
      (repair_segment_timestamps blank overlapping_segments none)
repair_segment_timestamps-AreRepaired_example =
    repair_segment_timestamps-AreRepaired blank overlapping_segments none

-- The recognizer hears the first turn, and fails for what begins later.
abbrev hear_first : ℕ → ℕ → ClipAnswer
hear_first start end = if start == 0 then heard "m" "bn" hi none else asr_failed

abbrev asks_two : PerTurnInput
asks_two = record { turns = two_turns; language = none; turn_pad_ms = none; concurrency = none }

abbrev second_first : List WorkerEvent
second_first = takes ∷ takes ∷ answers 1 ∷ answers 0 ∷ []

abbrev both_done : PerTurnState
both_done = record {
  next = 2;
  busy = [];
  results = some (record (segment 0 1_000 hi) { speaker = some "A" }) ∷ none ∷ [];
  model = "m";
  language = "bn";
}

second_first_run :
    run_workers blank hear_first asks_two second_first (start_workers asks_two) ≡ some both_done
unfolding run_workers worker_step start_workers trim trim_end trim_start
second_first_run = refl

per_turn_of-any_order_example :
    (per_turn_of blank hear_first both_done).segments
    ≡ sort_segments (present (outcomes blank hear_first asks_two))
per_turn_of-any_order_example =
    per_turn_of-any_order blank hear_first asks_two second_first both_done second_first_run refl

abbrev first_taken : PerTurnState
first_taken = record {
  next = 1;
  busy = 0 ∷ [];
  results = none ∷ none ∷ [];
  model = "unknown";
  language = "unknown";
}

first_taken_run :
    run_workers blank hear_first asks_two (takes ∷ []) (start_workers asks_two) ≡ some first_taken
unfolding run_workers worker_step start_workers
first_taken_run = refl

run_workers_ends_example :
    (length (takes ∷ []) ≤ 2 * length (eligible_turns asks_two))
    × ((es : List WorkerEvent) × (after : PerTurnState) × ((run_workers blank hear_first asks_two es
              first_taken
            ≡ some after)
          × (is_done blank hear_first asks_two after ≡ true)))
run_workers_ends_example =
    run_workers_ends blank hear_first asks_two (takes ∷ []) first_taken first_taken_run

abbrev plain_transcript : TranscriptArtifact
plain_transcript = record {
  language = "bn";
  text = hi;
  text_en = none;
  dialect_hint = none;
  dialect_label = none;
  speaker_names = [];
  names_mentioned = [];
  confidence = none;
  segments = overlapping_segments;
  provider = "whisper";
  model = "m";
}

abbrev whisper : SttProvider
whisper = record { name = "whisper"; transcribe = λ language prompt. some plain_transcript }

abbrev diarized_input : VoiceInput
diarized_input = record {
  stt = whisper;
  diarization = record { enabled = true; backend = local_script; mode = per_turn; model = [] };
  language = none;
  initial_prompt = none;
}

abbrev script_answers : Diarizers
script_answers = record { script = some (record { is_ok = true; turns = two_turns }); cloud = none }

ended_workers :
    (us : List DiarizationTurn)
    → (result : PerTurn) × IsOfWorkers blank hear_first
        (per_turn_input diarized_input none none us)
        result
unfolding run_workers
ended_workers us =
    let input = per_turn_input diarized_input none none us in
    let (_, (es, after, (runs, done))) =
      run_workers_ends blank hear_first input [] (start_workers input) refl in
    (per_turn_of blank hear_first after, (es, after, (runs, done, refl)))

abbrev transcribe_turns : List DiarizationTurn → PerTurn
transcribe_turns us = (ended_workers us).0

transcribe_with_diarization-HasSpeakers_example :
    (out : TranscriptArtifact) × ((transcribe_with_diarization blank transcribe_turns diarized_input
          script_answers
        ≡ some out)
      × HasSpeakers two_turns out)
unfolding run_diarization
transcribe_with_diarization-HasSpeakers_example =
    transcribe_with_diarization-HasSpeakers blank hear_first transcribe_turns diarized_input none
      none script_answers first_speaks (second_speaks ∷ []) plain_transcript refl refl
      two_turns-AreNamed (λ us. (ended_workers us).1) refl
