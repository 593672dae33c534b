-- ===== src/Engine/Boundaries.antt =====
-- The chunks of a generation (apps/gateway/src/engine/llamaServer.ts) do not depend on how the network
-- cuts the event stream into pieces.
use modelforge_ai.Base.{
  ℕ, ◌≡◌, refl, sym, ap, ◌∙◌, inl, inr, Bool, false, Option, List, [], ◌∷◌, ◌++◌, Bool-cases,
}
use mathlib.Core.List.{append_assoc, append-nil}
use modelforge_ai.Base.Text.{◌==◌, nat_eq}
use modelforge_ai.Base.Units.{Units}
use modelforge_ai.Engine.Stream.{
  UpstreamResponse, GenerateChunk, Progress, at_start, prepend_unit, prepend_line, split_lines,
  consume_lines, consume_pieces, stream_chunks, end_chunks, consume_line,
}

abbrev pub concat : List Units → Units
concat [] = []
concat (p ∷ ps) = p ++ concat ps

-- The lines of a text and what follows them, when the text goes on.
abbrev continue_lines : List Units × Units → Units → List Units × Units
continue_lines (ls, rest) ys = let (ms, rest') = split_lines (rest ++ ys) in (ls ++ ms, rest')

continue_lines-unit :
    (c : ℕ) (r : List Units × Units) (ys : Units)
    → (c == 10) ≡ false
    → continue_lines (prepend_unit c r) ys ≡ prepend_unit c (continue_lines r ys)
unfolding split_lines
continue_lines-unit c ([], rest) ys other = rw other refl
continue_lines-unit c (l ∷ ls, rest) ys other = refl

-- Cutting a text that goes on: first the lines it has, then those of its rest with what comes.
pub split_lines-append :
    (xs ys : Units) → split_lines (xs ++ ys) ≡ continue_lines (split_lines xs) ys
unfolding split_lines
split_lines-append [] ys = refl
split_lines-append (c ∷ cs) ys = elim (Bool-cases (c == 10)) [
  | inl newline ↦ rw newline (ap prepend_line (split_lines-append cs ys))
  | inr other ↦ rw other (
      ap (prepend_unit c) (split_lines-append cs ys)
      ∙ sym (continue_lines-unit c (split_lines cs) ys other))
]

-- What follows the last line has no end of line.
rest_plain : (xs : Units) → (split_lines (split_lines xs).1).0 ≡ []
unfolding split_lines
rest_plain [] = refl
rest_plain (c ∷ cs) = elim (Bool-cases (c == 10)) [
  | inl newline ↦ rw newline (rest_plain cs)
  | inr other ↦ rw other (rest_plain-unit c (split_lines cs) other (rest_plain cs))
]
  where
    rest_plain-unit :
        (c : ℕ) (r : List Units × Units)
        → (c == 10) ≡ false
        → (split_lines r.1).0 ≡ []
        → (split_lines (prepend_unit c r).1).0 ≡ []
    rest_plain-unit c ([], rest) other h = rw other (prepend_unit-plain c (split_lines rest) h)
      where
        prepend_unit-plain : (c : ℕ) (r : List Units × Units) → r.0 ≡ [] → (prepend_unit c r).0 ≡ []
        prepend_unit-plain c ([], rest) h = refl
        prepend_unit-plain c (l ∷ ls, rest) h = cc
    rest_plain-unit c (l ∷ ls, rest) other h = h

module _ (trim : Units → Units) (json_parse : Units → Option UpstreamResponse)
    (json_mode : Bool) where
  -- The lines one after the other.
  abbrev then_lines : List Units → Progress × List GenerateChunk → Progress × List GenerateChunk
  then_lines ms (p, now) =
      let (p', later) = consume_lines trim json_parse json_mode ms p in (p', now ++ later)

  consume_lines-append :
      (ls ms : List Units) (p : Progress)
      → consume_lines trim json_parse json_mode (ls ++ ms) p
        ≡ then_lines ms (consume_lines trim json_parse json_mode ls p)
  unfolding consume_lines
  consume_lines-append [] ms p = refl
  consume_lines-append (l ∷ ls) ms p =
      let (p', now) = consume_line trim json_parse json_mode l p in
      ap (λ r. (r.0, now ++ r.1)) (consume_lines-append ls ms p')
      ∙ ap (λ cs. ((then_lines ms (consume_lines trim json_parse json_mode ls p')).0, cs))
          (sym (append_assoc now _ _))

  -- The pieces give what the lines of the whole text give.
  consume_pieces-lines :
      (pieces : List Units) (buffer : Units) (p : Progress)
      → (split_lines buffer).0 ≡ []
      → consume_pieces trim json_parse json_mode pieces buffer p
        ≡ consume_lines trim json_parse json_mode (split_lines (buffer ++ concat pieces)).0 p
  unfolding consume_pieces consume_lines split_lines
  consume_pieces-lines [] buffer p plain = rw (append-nil, plain) refl
  consume_pieces-lines (piece ∷ pieces) buffer p plain =
      let (lines, rest) = split_lines (buffer ++ piece) in
      let (p', now) = consume_lines trim json_parse json_mode lines p in
      ap (λ r. (r.0, now ++ r.1))
        (consume_pieces-lines pieces rest p' (rest_plain (buffer ++ piece)))
      ∙ sym (consume_lines-append lines (split_lines (rest ++ concat pieces)).0 p)
      ∙ ap (λ r. consume_lines trim json_parse json_mode r.0 p)
          (sym (split_lines-append (buffer ++ piece) (concat pieces)))
      ∙ ap (λ text. consume_lines trim json_parse json_mode (split_lines text).0 p)
          (append_assoc buffer piece (concat pieces))

  -- However the text of a stream is cut into pieces, the same chunks are yielded: those of its lines up to
  -- the first that carries null, where the generator throws, and the final one where there is none such.
  pub stream_chunks-concat :
      (pieces : List Units)
      → stream_chunks trim json_parse json_mode pieces
        ≡ stream_chunks trim json_parse json_mode (concat pieces ∷ [])
  unfolding stream_chunks split_lines
  stream_chunks-concat pieces =
      let all = consume_pieces-lines pieces [] at_start refl in
      let once = consume_pieces-lines (concat pieces ∷ []) [] at_start refl in
      ap (λ r. r.1 ++ end_chunks r.0)
        (all
          ∙ ap (λ text. consume_lines trim json_parse json_mode (split_lines text).0 at_start)
              (sym (append-nil (concat pieces)))
          ∙ sym once)
