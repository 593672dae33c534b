-- ===== src/Voice/Public.antt =====
-- toPublicTranscript of apps/gateway/src/lib/voice/diarize.ts: the shape of a transcript for clients. An
-- empty list stands for the record of names and the list of mentioned names that are absent, null or empty.
use Prim.Native.String.{String}
use modelforge_ai.Base.{
  ℕ, ◌≡◌, refl, sym, subst, ◌∙◌, inl, inr, true, false, Option, none, some, List, [], ◌∷◌, map,
  arith, if◌then◌else◌, Bool-cases,
}
use modelforge_ai.Base.Text.{◌==◌, text_eq, eq_of_beq, beq_refl}
use modelforge_ai.Base.Preds.{In}
use modelforge_ai.Base.Assoc.{lookup}
use modelforge_ai.Base.Units.{Units}
use modelforge_ai.Retrieval.Knowledge.{is_one_of, unique_from}
use modelforge_ai.Voice.Segments.{TranscriptSegment, TranscriptArtifact}

pub record PublicSegment : Type 0 where
  pub start : ℕ
  pub end : ℕ
  pub text : Units
  pub text_en : Option Units
  pub speaker : Option String
  pub speaker_id : Option String
  pub confidence : Option ℕ

pub record PublicTranscript : Type 0 where
  pub transcript : TranscriptArtifact
  pub speaker_names : Option (List (String × String))
  pub names_mentioned : Option (List String)
  pub speakers : List String
  pub segments : List PublicSegment

-- Of an optional text, what is neither absent nor empty.
abbrev pub truthy : Option String → Option String
truthy none = none
truthy (some text) = if text == "" then none else some text

-- a || b
abbrev pub or_next : Option String → Option String → Option String
or_next none b = b
or_next (some a) b = some a

-- a ?? b
abbrev pub or_other : Option String → Option String → Option String
or_other none b = b
or_other (some a) b = some a

abbrev pub name_of : List (String × String) → Option String → Option String
name_of names none = none
name_of names (some id) = truthy (lookup id names)

abbrev pub null_if_empty {ℓ} : {A : Type ℓ} → List A → Option (List A)
null_if_empty [] = none
null_if_empty (x ∷ xs) = some (x ∷ xs)

unfoldable pub public_speaker : List (String × String) → TranscriptSegment → Option String
public_speaker names s = or_next (name_of names (truthy s.speaker)) (truthy s.speaker)

abbrev pub segment_name : List (String × String) → TranscriptSegment → Option String
segment_name names s =
    or_next (name_of names (truthy (or_other s.speaker_id s.speaker))) (truthy s.speaker)

unfoldable pub public_segment : List (String × String) → TranscriptSegment → PublicSegment
public_segment names s = record {
  start = s.start_sec;
  end = s.end_sec;
  text = s.text;
  text_en = s.text_en;
  speaker = segment_name names s;
  speaker_id = or_other s.speaker_id s.speaker;
  confidence = s.confidence;
}

-- .filter((speaker) => Boolean(speaker))
abbrev pub present_names : List (Option String) → List String
present_names [] = []
present_names (none ∷ ns) = present_names ns
present_names (some n ∷ ns) = n ∷ present_names ns

unfoldable pub to_public_transcript : TranscriptArtifact → PublicTranscript
to_public_transcript t = record {
  transcript = t;
  speaker_names = null_if_empty t.speaker_names;
  names_mentioned = null_if_empty t.names_mentioned;
  speakers = unique_from [] (present_names (map (public_speaker t.speaker_names) t.segments));
  segments = map (public_segment t.speaker_names) t.segments;
}

unique_from_complete :
    (seen ns : List String) (n : String)
    → is_one_of ns n ≡ true
    → is_one_of seen n ≡ false
    → is_one_of (unique_from seen ns) n ≡ true
unfolding unique_from
unique_from_complete seen [] n h k = cc
unique_from_complete seen (m ∷ ms) n h k = elim (Bool-cases (is_one_of seen m)) [
  | inl before ↦ elim (Bool-cases (m == n)) [
    | inl same ↦
        let e : m ≡ n = eq_of_beq m n same in
        let l : is_one_of seen n ≡ true = subst (λ x. is_one_of seen x ≡ true) e before in cc
    | inr other ↦ rw before (unique_from_complete seen ms n (rw other at h) k)
  ]
  | inr new ↦ elim (Bool-cases (m == n)) [
    | inl same ↦ rw (new, same) refl
    | inr other ↦
        rw (new, other) (unique_from_complete (m ∷ seen) ms n (rw other at h) (rw (other, k) refl))
  ]
]

-- A segment without an identifier of its own has the name that its speaker has in the list of speakers.
named_alike :
    (names : List (String × String)) (s : TranscriptSegment)
    → s.speaker_id ≡ none
    → (public_segment names s).speaker ≡ public_speaker names s
unfolding public_segment public_speaker
named_alike names s h = rw h refl

present_names_complete :
    (names : List (String × String)) (ss : List TranscriptSegment) (s : TranscriptSegment)
    (n : String)
    → In s ss
    → public_speaker names s ≡ some n
    → is_one_of (present_names (map (public_speaker names) ss)) n ≡ true
present_names_complete names [] s n m h = absurd m.1
present_names_complete names (r ∷ rs) s n (inl e) h =
    let k : public_speaker names r ≡ some n = subst (λ x. public_speaker names x ≡ some n) e h in
    rw k (ground (arith, beq_refl n))
present_names_complete names (r ∷ rs) s n (inr m) h =
    listed (public_speaker names r) (present_names_complete names rs s n m h)
  where
    listed :
        (o : Option String)
        → is_one_of (present_names (map (public_speaker names) rs)) n ≡ true
        → is_one_of (present_names (o ∷ map (public_speaker names) rs)) n ≡ true
    listed none k = k
    listed (some a) k = ground arith

-- The name that a segment without an identifier of its own is given in public stands among the speakers.
pub to_public_transcript-lists :
    (t : TranscriptArtifact) (s : TranscriptSegment) (n : String)
    → In s t.segments
    → s.speaker_id ≡ none
    → (public_segment t.speaker_names s).speaker ≡ some n
    → is_one_of (to_public_transcript t).speakers n ≡ true
unfolding to_public_transcript
to_public_transcript-lists t s n m h e =
    unique_from_complete [] _ n
      (present_names_complete t.speaker_names t.segments s n m
        (sym (named_alike t.speaker_names s h) ∙ e))
      refl
