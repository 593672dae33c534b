-- ===== src/Voice/Outcome.antt =====
-- What transcribeWithDiarization of apps/gateway/src/lib/voice/diarize.ts answers where turns are found.
use Prim.Native.String.{String}
use modelforge_ai.Base.{
  ℕ, ◌≡◌, refl, sym, subst, inl, inr, Bool, true, false, Option, some, List, [], ◌∷◌, Bool-cases,
  ltb, length,
}
use modelforge_ai.Base.Text.{◌==◌, text_eq}
use modelforge_ai.Base.Preds.{All, In, All-of_In}
use modelforge_ai.Voice.Turns.{DiarizationTurn, gap_ms}
use modelforge_ai.Voice.Coalesced.{coalesce_turns-IsCovered}
use modelforge_ai.Voice.Segments.{TranscriptSegment, TranscriptArtifact}
use modelforge_ai.Voice.Nearest.{AreNamed, assign_speakers_to_segments-AreAssigned}
use modelforge_ai.Voice.Timestamps.{normalize_transcript-All}
use modelforge_ai.Voice.Workers.{
  ClipAnswer, PerTurnInput, PerTurnState, PerTurn, WorkerEvent, start_workers, run_workers, is_done,
  per_turn_of,
}
use modelforge_ai.Voice.Schedules.{per_turn_of-any_order}
use modelforge_ai.Voice.Diarize.{
  DiarizationMode, per_turn, merge, Labelled, run_diarization, has_duplicated_turn_text,
}
use modelforge_ai.Voice.Labels.{
  at_In, TurnHas, SegmentHas, IsLabelled, coalesce_turns-All, assigned-All,
  merge_asr_segments_into_turns-All, collapse_duplicate_adjacent_text-All, heard-All,
}
use modelforge_ai.Voice.Transcribe.{
  VoiceInput, Diarizers, per_turn_input, transcribe_whole, assign_if_empty, label_by_mode,
  label_turns, label_whole, aligned, align_if_labelled, with_turns, with_diarization,
  transcribe_with_diarization,
}

-- The name is that of the speaker of a turn.
abbrev pub IsSpeakerOf : List DiarizationTurn → String → Type 0
IsSpeakerOf turns name =
    (t : DiarizationTurn) × (In t turns × (t.speaker ≡ name) × ((name == "") ≡ false))

-- Every segment has a speaker, who is that of a turn.
abbrev pub HasSpeakers : List DiarizationTurn → TranscriptArtifact → Type 0
HasSpeakers turns transcript = All (IsLabelled (IsSpeakerOf turns)) transcript.segments

module _ (is_space : ℕ → Bool) (hear : ℕ → ℕ → ClipAnswer) where
  -- The result is that of workers which have come to their end, in some order.
  abbrev pub IsOfWorkers : PerTurnInput → PerTurn → Type 0
  IsOfWorkers input result =
      (es : List WorkerEvent) × (s : PerTurnState) × ((run_workers is_space hear input es
            (start_workers input)
          ≡ some s)
        × (is_done is_space hear input s ≡ true)
        × (per_turn_of is_space hear s ≡ result))

  module _ (raw : List DiarizationTurn) where
    abbrev Speaks : String → Type 0
    Speaks = IsSpeakerOf raw

    raw-All : AreNamed raw → All (TurnHas Speaks) raw
    raw-All named = All-of_In (TurnHas Speaks) raw (λ t m. (t, (m, refl, named t m)))

    IsNamed-of_All : (ts : List DiarizationTurn) → All (TurnHas Speaks) ts → AreNamed ts
    IsNamed-of_All ts h t m = let (u, (n, e, named)) = at_In (TurnHas Speaks) ts t h m in named

    workers-All :
        (input : PerTurnInput) (result : PerTurn)
        → All (TurnHas Speaks) input.turns
        → IsOfWorkers input result
        → All (IsLabelled Speaks) result.segments
    workers-All input result h (es, s, (runs, done, e)) =
        subst (λ (r : PerTurn). All (IsLabelled Speaks) r.segments) e
          (subst (All (IsLabelled Speaks))
            (sym (per_turn_of-any_order is_space hear input es s runs done))
            (heard-All Speaks is_space hear input h))

    label_turns-All :
        (input : VoiceInput) (result : PerTurn)
        → All (IsLabelled Speaks) result.segments
        → All (IsLabelled Speaks) (label_turns is_space input result).segments
    label_turns-All input result h = elim (Bool-cases (ltb 0 (length result.segments))) [
      | inl found ↦ elim (Bool-cases (has_duplicated_turn_text is_space result.segments 3)) [
        | inl twice ↦
            rw (found, twice)
              (collapse_duplicate_adjacent_text-All Speaks is_space result.segments h)
        | inr once ↦
            rw (found, once)
              (collapse_duplicate_adjacent_text-All Speaks is_space result.segments h)
      ]
      | inr missed ↦ rw missed tt
    ]

    label_by_mode-All :
        (mode : DiarizationMode) (input : VoiceInput) (result : PerTurn)
        → All (IsLabelled Speaks) result.segments
        → All (IsLabelled Speaks) (label_by_mode is_space mode input result).segments
    label_by_mode-All per_turn input result h = label_turns-All input result h
    label_by_mode-All merge input result h = tt

    assign_if_empty-All :
        (merged segments : List TranscriptSegment) (t : DiarizationTurn) (ts : List DiarizationTurn)
        → All (TurnHas Speaks) (t ∷ ts)
        → All (IsLabelled Speaks) merged
        → All (IsLabelled Speaks) (assign_if_empty merged segments (t ∷ ts))
    assign_if_empty-All [] segments t ts h k =
        assigned-All Speaks (t ∷ ts) segments _ h
          (assign_speakers_to_segments-AreAssigned segments t ts (IsNamed-of_All (t ∷ ts) h))
    assign_if_empty-All (s ∷ ss) segments t ts h k = k

    label_whole-All :
        (plain : TranscriptArtifact) (t : DiarizationTurn) (ts : List DiarizationTurn)
        → All (TurnHas Speaks) (t ∷ ts)
        → All (IsLabelled Speaks) (label_whole is_space (t ∷ ts) plain).segments
    label_whole-All plain t ts h = collapse_duplicate_adjacent_text-All Speaks is_space _ (
        assign_if_empty-All _ plain.segments t ts h
          (merge_asr_segments_into_turns-All Speaks is_space plain.segments t ts h))

    aligned-HasSpeakers :
        (input : VoiceInput) (labelled : Labelled)
        → All (IsLabelled Speaks) labelled.segments
        → HasSpeakers raw (aligned is_space input labelled)
    aligned-HasSpeakers input labelled h = normalize_transcript-All is_space (SegmentHas Speaks) _ h

    align_if_labelled-HasSpeakers :
        (input : VoiceInput) (t : DiarizationTurn) (ts : List DiarizationTurn) (labelled : Labelled)
        (segments : List TranscriptSegment) (plain : TranscriptArtifact)
        → All (TurnHas Speaks) (t ∷ ts)
        → All (IsLabelled Speaks) labelled.segments
        → transcribe_whole input ≡ some plain
        → (out : TranscriptArtifact) × ((align_if_labelled is_space input (t ∷ ts) labelled segments
              ≡ some out)
            × HasSpeakers raw out)
    align_if_labelled-HasSpeakers input t ts labelled [] plain h k e = (
      aligned is_space input (label_whole is_space (t ∷ ts) plain),
      (rw e refl, aligned-HasSpeakers input _ (label_whole-All plain t ts h)),
    )
    align_if_labelled-HasSpeakers input t ts labelled (s ∷ ss) plain h k e =
        (aligned is_space input labelled, (refl, aligned-HasSpeakers input labelled k))

  with_turns-HasSpeakers :
      (transcribe_per_turn : List DiarizationTurn → PerTurn) (input : VoiceInput)
      (pad concurrency : Option ℕ) (raw turns : List DiarizationTurn) (t : DiarizationTurn)
      (plain : TranscriptArtifact)
      → In t turns
      → All (TurnHas (IsSpeakerOf raw)) turns
      → ((us : List DiarizationTurn)
          → IsOfWorkers (per_turn_input input pad concurrency us) (transcribe_per_turn us))
      → transcribe_whole input ≡ some plain
      → (out : TranscriptArtifact) × ((with_turns is_space transcribe_per_turn input turns
            ≡ some out)
          × HasSpeakers raw out)
  unfolding with_turns
  with_turns-HasSpeakers transcribe_per_turn input pad concurrency raw [] t plain m h workers e =
      absurd m.1
  with_turns-HasSpeakers transcribe_per_turn input pad concurrency raw (u ∷ us) t plain m h workers
        e =
      align_if_labelled-HasSpeakers raw input u us _ _ plain h
        (label_by_mode-All raw input.diarization.mode input (transcribe_per_turn (u ∷ us))
          (workers-All raw (per_turn_input input pad concurrency (u ∷ us)) _ h (workers (u ∷ us))))
        e

  -- If diarization is enabled and finds a turn, every turn has a name, the recognizer gives a transcript of
  -- the whole recording, and the workers of transcribePerTurn come to their end in some order, then there is
  -- a transcript, and each of its segments has the speaker of a turn.
  pub transcribe_with_diarization-HasSpeakers :
      (transcribe_per_turn : List DiarizationTurn → PerTurn) (input : VoiceInput)
      (pad concurrency : Option ℕ) (diarizers : Diarizers) (t : DiarizationTurn)
      (ts : List DiarizationTurn) (plain : TranscriptArtifact)
      → input.diarization.enabled ≡ true
      → run_diarization input.diarization.backend diarizers.script diarizers.cloud ≡ some (t ∷ ts)
      → AreNamed (t ∷ ts)
      → ((us : List DiarizationTurn)
          → IsOfWorkers (per_turn_input input pad concurrency us) (transcribe_per_turn us))
      → transcribe_whole input ≡ some plain
      → (out : TranscriptArtifact) × ((transcribe_with_diarization is_space transcribe_per_turn
              input diarizers
            ≡ some out)
          × HasSpeakers (t ∷ ts) out)
  unfolding transcribe_with_diarization with_diarization
  transcribe_with_diarization-HasSpeakers transcribe_per_turn input pad concurrency diarizers t ts
        plain on found named workers e =
      let (u, (m, _, _, _)) = coalesce_turns-IsCovered (t ∷ ts) gap_ms t (inl refl) in
      simp (on, found)
        (with_turns-HasSpeakers transcribe_per_turn input pad concurrency (t ∷ ts) _ u plain m
          (coalesce_turns-All (IsSpeakerOf (t ∷ ts)) (t ∷ ts) gap_ms (raw-All (t ∷ ts) named))
          workers e)
