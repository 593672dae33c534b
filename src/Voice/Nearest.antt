-- ===== src/Voice/Nearest.antt =====
-- Which turn assignSpeakersToSegments of apps/gateway/src/lib/voice/diarize.ts takes for a segment.
use Prim.Native.String.{String}
use modelforge_ai.Base.{
  ℕ, ◌≤◌, ◌<◌, ◌≡◌, refl, ap, ◌⊎◌, inl, inr, true, false, Option, none, some, List, [], ◌∷◌, arith,
  ltb, Bool-cases, Option-cases,
}
use modelforge_ai.Base.Text.{◌==◌, text_eq}
use modelforge_ai.Base.Preds.{In, find, find_sound}
use modelforge_ai.Voice.Turns.{DiarizationTurn, sort_turns}
use modelforge_ai.Voice.Segments.{TranscriptSegment}
use modelforge_ai.Voice.Sorted.{In-sort_turns, In-sort_turns-of}
use modelforge_ai.Voice.Speakers.{
  overlap, contains_mid, distance, best_overlap, nearest, speaker_at_mid, choose_speaker,
  assign_speaker, assign_speakers_to_segments,
}

-- No turn overlaps the segment by more than n.
abbrev AtMost : TranscriptSegment → List DiarizationTurn → ℕ → Type 0
AtMost segment turns n = (v : DiarizationTurn) → In v turns → overlap segment v ≤ n

-- The speaker and the overlap are those of a turn that overlaps most, and by more than b.
abbrev IsBest : TranscriptSegment → List DiarizationTurn → ℕ → Option String × ℕ → Type 0
IsBest segment turns b r =
    (u : DiarizationTurn) × (In u turns
      × (r ≡ (some u.speaker, overlap segment u))
      × (b < overlap segment u)
      × AtMost segment turns (overlap segment u))

best_overlap_cases :
    (segment : TranscriptSegment) (turns : List DiarizationTurn) (who : Option String) (b : ℕ)
    → ((best_overlap segment turns (who, b) ≡ (who, b)) × AtMost segment turns b)
      ⊎ IsBest segment turns b (best_overlap segment turns (who, b))
unfolding best_overlap
best_overlap_cases segment [] who b = inl (refl, λ v m. absurd m.1)
best_overlap_cases segment (t ∷ ts) who b = elim (Bool-cases (ltb b (overlap segment t))) [
  | inl more ↦ rw more (elim (best_overlap_cases segment ts (some t.speaker) (overlap segment t)) [
    | inl (e, least) ↦
        inr (t, (inl refl, e, ground arith, AtMost-cons segment t ts _ (omega arith) least))
    | inr (u, (m, e, lt, least)) ↦
        inr (u, (inr m, e, ground arith, AtMost-cons segment t ts _ (omega arith) least))
  ])
  | inr less ↦ rw less (elim (best_overlap_cases segment ts who b) [
    | inl (e, least) ↦ inl (e, AtMost-cons segment t ts _ (ground arith) least)
    | inr (u, (m, e, lt, least)) ↦
        inr (u, (inr m, e, lt, AtMost-cons segment t ts _ (ground arith) least))
  ])
]
  where
    AtMost-cons :
        (segment : TranscriptSegment) (t : DiarizationTurn) (ts : List DiarizationTurn) (n : ℕ)
        → overlap segment t ≤ n
        → AtMost segment ts n
        → AtMost segment (t ∷ ts) n
    AtMost-cons segment t ts n h k v (inl e) = rw e h
    AtMost-cons segment t ts n h k v (inr m) = k v m

-- No turn is nearer to the middle of the segment than n.
abbrev AtLeast : TranscriptSegment → List DiarizationTurn → ℕ → Type 0
AtLeast segment turns n = (v : DiarizationTurn) → In v turns → n ≤ distance segment v

AtLeast-cons :
    (segment : TranscriptSegment) (t : DiarizationTurn) (ts : List DiarizationTurn) (n : ℕ)
    → n ≤ distance segment t
    → AtLeast segment ts n
    → AtLeast segment (t ∷ ts) n
AtLeast-cons segment t ts n h k v (inl e) = rw e h
AtLeast-cons segment t ts n h k v (inr m) = k v m

abbrev IsClosest : TranscriptSegment → List DiarizationTurn → Option String × Option ℕ → Type 0
IsClosest segment turns r =
    (u : DiarizationTurn) × (In u turns
      × (r ≡ (some u.speaker, some (distance segment u)))
      × AtLeast segment turns (distance segment u))

nearest_from :
    (segment : TranscriptSegment) (t : DiarizationTurn) (ts : List DiarizationTurn)
    → IsClosest segment (t ∷ ts) (nearest segment ts (some t.speaker, some (distance segment t)))
unfolding nearest
nearest_from segment t [] =
    (t, (inl refl, refl, AtLeast-cons segment t [] _ (omega arith) (λ v m. absurd m.1)))
nearest_from segment t (u ∷ us) =
    elim (Bool-cases (ltb (distance segment u) (distance segment t))) [
      | inl closer ↦
          let (w, (m, e, least)) = nearest_from segment u us in
          let k : distance segment w ≤ distance segment t =
            (let l = least u (inl refl) in ground arith) in
          rw closer (w, (inr m, e, AtLeast-cons segment t (u ∷ us) _ k least))
      | inr further ↦
          let (w, (m, e, least)) = nearest_from segment t us in
          rw further (w, (skip w m, e, below w (ground arith) least))
    ]
  where
    skip : (w : DiarizationTurn) → In w (t ∷ us) → In w (t ∷ u ∷ us)
    skip w (inl e) = inl e
    skip w (inr m) = inr (inr m)

    below :
        (w : DiarizationTurn)
        → distance segment t ≤ distance segment u
        → AtLeast segment (t ∷ us) (distance segment w)
        → AtLeast segment (t ∷ u ∷ us) (distance segment w)
    below w h least v (inl e) = least v (inl e)
    below w h least v (inr (inl e)) =
        let k : distance segment w ≤ distance segment t = least t (inl refl) in rw e (omega arith)
    below w h least v (inr (inr m)) = least v (inr m)

abbrev pub AreNamed : List DiarizationTurn → Type 0
AreNamed turns = (t : DiarizationTurn) → In t turns → (t.speaker == "") ≡ false

-- The turn overlaps the segment, and no other does for longer; or none overlaps it, and no other is nearer
-- to its middle.
abbrev pub IsChosen : TranscriptSegment → List DiarizationTurn → DiarizationTurn → Type 0
IsChosen segment turns u =
    ((0 < overlap segment u) × AtMost segment turns (overlap segment u))
    ⊎ (AtMost segment turns 0 × AtLeast segment turns (distance segment u))

-- The speaker is that of a chosen turn.
abbrev pub HasSpeaker : List DiarizationTurn → TranscriptSegment → Option String → Type 0
HasSpeaker turns segment who =
    (u : DiarizationTurn) × (In u turns × (who ≡ some u.speaker) × IsChosen segment turns u)

contains_mid-distance :
    (segment : TranscriptSegment) (t : DiarizationTurn)
    → contains_mid segment t ≡ true
    → distance segment t ≡ 0
contains_mid-distance segment t h = ground arith

-- Where nothing overlaps, a turn around the middle or else the nearest turn is taken.
speaker_at_mid_chosen :
    (segment : TranscriptSegment) (t : DiarizationTurn) (ts : List DiarizationTurn)
    → AreNamed (t ∷ ts)
    → AtMost segment (t ∷ ts) 0
    → HasSpeaker (t ∷ ts) segment (speaker_at_mid segment (t ∷ ts) none)
unfolding nearest
speaker_at_mid_chosen segment t ts named none_overlaps =
    elim (Option-cases (find (contains_mid segment) (t ∷ ts))) [
      | inl missed ↦
          let (u, (m, e, least)) = nearest_from segment t ts in
          rw missed
            (u, (m, ap (λ (p : Option String × Option ℕ). p.0) e, inr (none_overlaps, least)))
      | inr (u, found) ↦
          let (holds, m) = find_sound (contains_mid segment) (t ∷ ts) u found in
          let z = contains_mid-distance segment u holds in
          rw (found, named u m) (u, (m, refl, inr (none_overlaps, λ v n. rw z (omega arith))))
    ]

-- Found among turns that are the same in another order.
HasSpeaker-of_same :
    (us ts : List DiarizationTurn) (segment : TranscriptSegment) (who : Option String)
    → ((v : DiarizationTurn) → In v us → In v ts)
    → ((v : DiarizationTurn) → In v ts → In v us)
    → HasSpeaker us segment who
    → HasSpeaker ts segment who
HasSpeaker-of_same us ts segment who to from (u, (m, e, inl (lt, most))) =
    (u, (to u m, e, inl (lt, λ v n. most v (from v n))))
HasSpeaker-of_same us ts segment who to from (u, (m, e, inr (none_overlaps, least))) =
    (u, (to u m, e, inr (λ v n. none_overlaps v (from v n), λ v n. least v (from v n))))

choose_speaker_chosen :
    (segment : TranscriptSegment) (ts : List DiarizationTurn) (t : DiarizationTurn)
    → In t ts
    → AreNamed ts
    → HasSpeaker ts segment (choose_speaker segment ts (best_overlap segment ts (none, 0)))
choose_speaker_chosen segment [] u m named = absurd m.1
choose_speaker_chosen segment (t ∷ ts) u m named =
    elim (best_overlap_cases segment (t ∷ ts) none 0) [
      | inl (e, least) ↦ rw e (speaker_at_mid_chosen segment t ts named least)
      | inr (w, (n, e, lt, least)) ↦ rw (e, named w n) (w, (n, ground arith, inl (lt, least)))
    ]

assign_speaker_chosen :
    (segment : TranscriptSegment) (t : DiarizationTurn) (ts : List DiarizationTurn)
    → AreNamed (t ∷ ts)
    → HasSpeaker (t ∷ ts) segment (assign_speaker (sort_turns (t ∷ ts)) segment).speaker
unfolding assign_speaker
assign_speaker_chosen segment t ts named =
    let to = λ (v : DiarizationTurn). In-sort_turns-of v (t ∷ ts) in
    let from = λ (v : DiarizationTurn). In-sort_turns v (t ∷ ts) in
    HasSpeaker-of_same (sort_turns (t ∷ ts)) (t ∷ ts) segment _ to from (
      choose_speaker_chosen segment (sort_turns (t ∷ ts)) t (from t (inl refl))
        (λ v n. named v (to v n)))

-- The segments of the second list are those of the first, each with the speaker of a chosen turn.
abbrev pub AreAssigned :
    List DiarizationTurn → List TranscriptSegment → List TranscriptSegment → Type 0
AreAssigned turns [] out = out ≡ []
AreAssigned turns (s ∷ ss) [] = Unit × ⊥
AreAssigned turns (s ∷ ss) (r ∷ rs) =
    (r ≡ record s { speaker = r.speaker }) × HasSpeaker turns s r.speaker × AreAssigned turns ss rs

-- If every turn has a name, and there is one, then each segment gets the speaker of a turn that overlaps it
-- for longest or, where none overlaps it, of one that is nearest to its middle; nothing else of it changes.
pub assign_speakers_to_segments-AreAssigned :
    (segments : List TranscriptSegment) (t : DiarizationTurn) (ts : List DiarizationTurn)
    → AreNamed (t ∷ ts)
    → AreAssigned (t ∷ ts) segments (assign_speakers_to_segments segments (t ∷ ts))
unfolding assign_speakers_to_segments assign_speaker
assign_speakers_to_segments-AreAssigned [] t ts named = refl
assign_speakers_to_segments-AreAssigned (s ∷ ss) t ts named = (
  refl,
  assign_speaker_chosen s t ts named,
  assign_speakers_to_segments-AreAssigned ss t ts named,
)
