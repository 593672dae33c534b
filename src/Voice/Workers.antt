-- ===== src/Voice/Workers.antt =====
-- transcribePerTurn of apps/gateway/src/lib/voice/diarize.ts: workers that take the slots of the eligible
-- turns one after the other and wait for the recognizer. What it answers for a clip is a parameter; which
-- worker goes on next is an event.
use Prim.Native.String.{String}
use modelforge_ai.Base.{
  ℕ, ◌+◌, ◌-◌, min, max, Bool, not, ◌&&◌, Option, none, some, List, [], ◌∷◌, length, get_elem?, set,
  replicate, if◌then◌else◌, ltb, leb,
}
use modelforge_ai.Base.Text.{◌==◌, text_eq, nat_eq}
use modelforge_ai.Base.Preds.{any, filter}
use modelforge_ai.Base.Units.{Units, is_empty, trim}
use modelforge_ai.Voice.Turns.{DiarizationTurn}
use modelforge_ai.Voice.Segments.{TranscriptSegment}
use modelforge_ai.Voice.Slices.{turn_segment, sort_segments}

-- ffmpeg fails, the recognizer throws, or it gives a transcript of the clip.
pub data ClipAnswer : Type 0 where
  cut_failed asr_failed : ClipAnswer
  heard : String → String → Units → Option ℕ → ClipAnswer

pub record PerTurnInput : Type 0 where
  pub turns : List DiarizationTurn
  pub language : Option String
  pub turn_pad_ms : Option ℕ
  pub concurrency : Option ℕ

pub record PerTurnState : Type 0 where
  pub next : ℕ
  pub busy : List ℕ
  pub results : List (Option TranscriptSegment)
  pub model : String
  pub language : String

pub record PerTurn : Type 0 where
  pub segments : List TranscriptSegment
  pub model : String
  pub language : String

pub data WorkerEvent : Type 0 where
  takes : WorkerEvent
  answers : ℕ → WorkerEvent

abbrev pub or_else {ℓ} : {A : Type ℓ} → Option A → A → A
or_else none d = d
or_else (some a) d = a

-- `text || before`
abbrev pub or_before : String → String → String
or_before text before = if text == "" then before else text

abbrev pub pad_of : PerTurnInput → ℕ
pad_of input = or_else input.turn_pad_ms 200

abbrev pub concurrency_of : PerTurnInput → ℕ
concurrency_of input = max 1 (min 8 (or_else input.concurrency 2))

-- `turn.end - turn.start >= 0.35`
abbrev pub eligible_turns : PerTurnInput → List DiarizationTurn
eligible_turns input = filter (λ (t : DiarizationTurn). leb (t.start + 350) t.end) input.turns

abbrev pub worker_count : PerTurnInput → ℕ
worker_count input = min (concurrency_of input) (length (eligible_turns input))

unfoldable pub start_workers : PerTurnInput → PerTurnState
start_workers input = record {
  next = 0;
  busy = [];
  results = replicate (length (eligible_turns input)) none;
  model = "unknown";
  language = or_else input.language "unknown";
}

abbrev pub is_busy : ℕ → List ℕ → Bool
is_busy slot busy = any (λ other. other == slot) busy

abbrev pub idle : ℕ → List ℕ → List ℕ
idle slot busy = filter (λ other. not (other == slot)) busy

-- for (const segment of results) if (segment) …
abbrev pub present : List (Option TranscriptSegment) → List TranscriptSegment
present [] = []
present (none ∷ rs) = present rs
present (some s ∷ rs) = s ∷ present rs

-- results[slot] = … is left out where the clip gives nothing.
abbrev pub put :
    ℕ → Option TranscriptSegment → List (Option TranscriptSegment) → List (Option TranscriptSegment)
put slot none results = results
put slot (some s) results = set results slot (some s)

module _ (is_space : ℕ → Bool) (hear : ℕ → ℕ → ClipAnswer) where
  -- The answer for the clip of a turn, cut with the padding.
  abbrev pub clip_answer : PerTurnInput → DiarizationTurn → ClipAnswer
  clip_answer input turn = hear (turn.start - pad_of input) (turn.end + pad_of input)

  abbrev pub said_in : DiarizationTurn → Units → Option ℕ → Option TranscriptSegment
  said_in turn text confidence =
      if is_empty text then none else some (turn_segment turn text confidence)

  abbrev pub segment_of : DiarizationTurn → ClipAnswer → Option TranscriptSegment
  segment_of turn cut_failed = none
  segment_of turn asr_failed = none
  segment_of turn (heard model language text confidence) =
      said_in turn (trim is_space text) confidence

  abbrev pub outcome : PerTurnInput → DiarizationTurn → Option TranscriptSegment
  outcome input turn = segment_of turn (clip_answer input turn)

  abbrev pub note_answer : ClipAnswer → PerTurnState → PerTurnState
  note_answer cut_failed s = s
  note_answer asr_failed s = s
  note_answer (heard model language text confidence) s = record s {
    model = or_before model s.model;
    language = or_before language s.language;
  }

  abbrev pub finish_slot : PerTurnInput → ℕ → Option DiarizationTurn → PerTurnState → PerTurnState
  finish_slot input slot none s = s
  finish_slot input slot (some turn) s = record (note_answer (clip_answer input turn) s) {
    busy = idle slot s.busy;
    results = put slot (outcome input turn) s.results;
  }

  -- An event, or none where it cannot happen.
  unfoldable pub worker_step : PerTurnInput → WorkerEvent → PerTurnState → Option PerTurnState
  worker_step input takes s =
      if ltb (length s.busy) (worker_count input) && ltb s.next (length (eligible_turns input))
      then some (record s { next = s.next + 1; busy = s.next ∷ s.busy })
      else none
  worker_step input (answers slot) s =
      if is_busy slot s.busy
      then some (finish_slot input slot (get_elem? (eligible_turns input) slot) s)
      else none

  unfoldable pub run_workers : PerTurnInput → List WorkerEvent → PerTurnState → Option PerTurnState
  run_workers input [] s = some s
  run_workers input (e ∷ es) s = elim (worker_step input e s) [
    | none ↦ none
    | some after ↦ run_workers input es after
  ]

  -- No worker waits and every slot is taken: Promise.all is resolved.
  abbrev pub is_done : PerTurnInput → PerTurnState → Bool
  is_done input s = (length s.busy == 0) && (s.next == length (eligible_turns input))

  abbrev pub per_turn_of : PerTurnState → PerTurn
  per_turn_of s = record {
    segments = sort_segments (present s.results);
    model = s.model;
    language = s.language;
  }
