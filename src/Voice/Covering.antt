-- ===== src/Voice/Covering.antt =====
-- How sliceTextByTimeOverlap and mergeAsrSegmentsIntoTurns of apps/gateway/src/lib/voice/diarize.ts share the
-- words of a segment between two turns that meet in it.
use Prim.Native.String.{String}
use native.Mathlib.Nat
use modelforge_ai.Base.{ℕ, ◌-◌, Bool, not, List, [], ◌∷◌}
use modelforge_ai.Base.Preds.{filter}
use modelforge_ai.Base.Units.{Units, is_empty, trim}
use modelforge_ai.Voice.Turns.{DiarizationTurn}
use modelforge_ai.Voice.Segments.{TranscriptSegment}
use modelforge_ai.Voice.Words.{join_words}
use modelforge_ai.Voice.Slices.{segment_duration, first_word, add_turn}

-- The word that holds the time m of a segment of n words.
abbrev word_at : ℕ → ℕ → ℕ → ℕ → ℕ
word_at n start end m = first_word n (segment_duration start end) (m - start)

module _ (is_space : ℕ → Bool) where
  -- The text of words in a turn: one part, or none where nothing is said.
  abbrev pub said_by :
      DiarizationTurn → List Units → List TranscriptSegment → List TranscriptSegment
  said_by turn words out =
      add_turn is_space turn
        (filter (λ part. not (is_empty part)) (trim is_space (join_words words) ∷ [])) out
