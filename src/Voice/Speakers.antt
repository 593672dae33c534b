-- ===== src/Voice/Speakers.antt =====
-- segmentTurnOverlap and assignSpeakersToSegments of apps/gateway/src/lib/voice/diarize.ts. The middle of
-- a segment is half of `start + end`, so middles and distances are doubled.
use Prim.Native.String.{String}
use modelforge_ai.Base.{
  ℕ, ◌+◌, ◌-◌, ◌*◌, min, max, Bool, true, ◌&&◌, ◌||◌, Option, none, some, List, [], ◌∷◌, map,
  if◌then◌else◌, ltb, leb, ◌==◌ as nat_beq,
}
use modelforge_ai.Base.Text.{◌==◌, text_eq}
use modelforge_ai.Base.Preds.{find}
use modelforge_ai.Voice.Turns.{DiarizationTurn, sort_turns}
use modelforge_ai.Voice.Segments.{TranscriptSegment}

-- Math.max(0, …) is the subtraction that stops at 0.
abbrev pub segment_turn_overlap : ℕ → ℕ → ℕ → ℕ → ℕ
segment_turn_overlap seg_start seg_end turn_start turn_end =
    min seg_end turn_end - max seg_start turn_start

abbrev pub overlap : TranscriptSegment → DiarizationTurn → ℕ
overlap segment turn = segment_turn_overlap segment.start_sec segment.end_sec turn.start turn.end

abbrev pub twice_mid : TranscriptSegment → ℕ
twice_mid segment = segment.start_sec + segment.end_sec

abbrev pub contains_mid : TranscriptSegment → DiarizationTurn → Bool
contains_mid segment turn =
    leb (2 * turn.start) (twice_mid segment) && leb (twice_mid segment) (2 * turn.end)

abbrev pub distance : TranscriptSegment → DiarizationTurn → ℕ
distance segment turn =
    if ltb (twice_mid segment) (2 * turn.start)
    then 2 * turn.start - twice_mid segment
    else if ltb (2 * turn.end) (twice_mid segment)
    then twice_mid segment - 2 * turn.end
    else 0

-- `!bestSpeaker`: null, or an empty text.
abbrev pub is_missing : Option String → Bool
is_missing none = true
is_missing (some name) = name == ""

abbrev pub better_overlap :
    TranscriptSegment → DiarizationTurn → Option String × ℕ → Option String × ℕ
better_overlap segment turn (who, best) =
    if ltb best (overlap segment turn)
    then (some turn.speaker, overlap segment turn)
    else (who, best)

unfoldable pub best_overlap :
    TranscriptSegment → List DiarizationTurn → Option String × ℕ → Option String × ℕ
best_overlap segment [] best = best
best_overlap segment (turn ∷ turns) best =
    best_overlap segment turns (better_overlap segment turn best)

-- bestDist starts at Infinity, which is `none`.
abbrev pub is_nearer : ℕ → Option ℕ → Bool
is_nearer dist none = true
is_nearer dist (some best) = ltb dist best

abbrev pub nearer :
    TranscriptSegment → DiarizationTurn → Option String × Option ℕ → Option String × Option ℕ
nearer segment turn (who, best) =
    if is_nearer (distance segment turn) best
    then (some turn.speaker, some (distance segment turn))
    else (who, best)

unfoldable pub nearest :
    TranscriptSegment → List DiarizationTurn → Option String × Option ℕ → Option String × Option ℕ
nearest segment [] best = best
nearest segment (turn ∷ turns) best = nearest segment turns (nearer segment turn best)

abbrev pub speaker_of : Option DiarizationTurn → Option String → Option String
speaker_of none before = before
speaker_of (some turn) before = some turn.speaker

abbrev pub speaker_at_mid : TranscriptSegment → List DiarizationTurn → Option String → Option String
speaker_at_mid segment turns before =
    let who = speaker_of (find (contains_mid segment) turns) before in
    if is_missing who then (nearest segment turns (who, none)).0 else who

abbrev pub choose_speaker :
    TranscriptSegment → List DiarizationTurn → Option String × ℕ → Option String
choose_speaker segment turns (who, best) =
    if is_missing who || nat_beq best 0 then speaker_at_mid segment turns who else who

unfoldable pub assign_speaker : List DiarizationTurn → TranscriptSegment → TranscriptSegment
assign_speaker turns segment = record segment {
  speaker = choose_speaker segment turns (best_overlap segment turns (none, 0));
}

unfoldable pub assign_speakers_to_segments :
    List TranscriptSegment → List DiarizationTurn → List TranscriptSegment
assign_speakers_to_segments segments [] = segments
assign_speakers_to_segments segments (turn ∷ turns) =
    map (assign_speaker (sort_turns (turn ∷ turns))) segments
