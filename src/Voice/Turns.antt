-- ===== src/Voice/Turns.antt =====
-- The turns of a diarization and coalesceTurns of apps/gateway/src/lib/voice/diarize.ts. The times, which
-- the code keeps as floating point numbers of seconds, are natural numbers of milliseconds.
use Prim.Native.String.{String}
use modelforge_ai.Base.{ℕ, ◌+◌, max, ◌≡◌, refl, Bool, ◌&&◌, List, [], ◌∷◌, if◌then◌else◌, leb, ltb}
use modelforge_ai.Base.Text.{◌==◌, text_eq}
use modelforge_ai.Base.Preds.{filter}

pub record DiarizationTurn : Type 0 where
  pub start : ℕ
  pub end : ℕ
  pub speaker : String

unfoldable pub insert_turn : DiarizationTurn → List DiarizationTurn → List DiarizationTurn
insert_turn t [] = t ∷ []
insert_turn t (u ∷ us) = if leb t.start u.start then t ∷ u ∷ us else u ∷ insert_turn t us

-- [...turns].sort((a, b) => a.start - b.start), which keeps the order of turns that start together.
unfoldable pub sort_turns : List DiarizationTurn → List DiarizationTurn
sort_turns [] = []
sort_turns (t ∷ ts) = insert_turn t (sort_turns ts)

-- `turn.end > turn.start`
abbrev pub valid_turns : List DiarizationTurn → List DiarizationTurn
valid_turns turns = filter (λ (t : DiarizationTurn). ltb t.start t.end) turns

abbrev pub gap_ms : ℕ
gap_ms = 350

abbrev pub joins : ℕ → DiarizationTurn → DiarizationTurn → Bool
joins gap prev cur = (cur.speaker == prev.speaker) && leb cur.start (prev.end + gap)

abbrev pub extend : DiarizationTurn → DiarizationTurn → DiarizationTurn
extend prev cur = record prev { end = max prev.end cur.end }

-- The loop, with the last turn of `out` apart.
unfoldable pub coalesce_onto : ℕ → DiarizationTurn → List DiarizationTurn → List DiarizationTurn
coalesce_onto gap prev [] = prev ∷ []
coalesce_onto gap prev (cur ∷ rest) =
    let joined = coalesce_onto gap (extend prev cur) rest in
    let apart = coalesce_onto gap cur rest in if joins gap prev cur then joined else prev ∷ apart

abbrev pub coalesce_sorted : ℕ → List DiarizationTurn → List DiarizationTurn
coalesce_sorted gap [] = []
coalesce_sorted gap (t ∷ ts) = coalesce_onto gap t ts

unfoldable pub coalesce_turns : List DiarizationTurn → ℕ → List DiarizationTurn
coalesce_turns turns gap = coalesce_sorted gap (sort_turns turns)

abbrev pub alternating_turns : List DiarizationTurn
alternating_turns =
    record { start = 1_300; end = 2_000; speaker = "A" }
    ∷ record { start = 0; end = 1_000; speaker = "A" }
    ∷ record { start = 2_100; end = 3_000; speaker = "B" }
    ∷ []

coalesces_near_turns :
    coalesce_turns alternating_turns gap_ms
    ≡ record { start = 0; end = 2_000; speaker = "A" }
      ∷ record { start = 2_100; end = 3_000; speaker = "B" }
      ∷ []
unfolding coalesce_turns coalesce_onto sort_turns insert_turn
coalesces_near_turns = refl
