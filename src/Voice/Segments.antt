-- ===== src/Voice/Segments.antt =====
-- The segments and the artifact of a transcript (apps/gateway/src/lib/voice/types.ts). Times and
-- confidences are natural numbers of thousandths; an optional field that is absent or null is `none`.
use Prim.Native.String.{String}
use modelforge_ai.Base.{ℕ, Option, List, map}
use modelforge_ai.Base.Units.{Units}

pub record TranscriptSegment : Type 0 where
  pub start_sec : ℕ
  pub end_sec : ℕ
  pub text : Units
  pub text_en : Option Units
  pub confidence : Option ℕ
  pub speaker : Option String
  pub speaker_id : Option String

pub record TranscriptArtifact : Type 0 where
  pub language : String
  pub text : Units
  pub text_en : Option Units
  pub dialect_hint : Option String
  pub dialect_label : Option String
  pub speaker_names : List (String × String)
  pub names_mentioned : List String
  pub confidence : Option ℕ
  pub segments : List TranscriptSegment
  pub provider : String
  pub model : String

abbrev pub texts_of : List TranscriptSegment → List Units
texts_of segments = map (λ (s : TranscriptSegment). s.text) segments
