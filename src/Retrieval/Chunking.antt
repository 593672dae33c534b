-- ===== src/Retrieval/Chunking.antt =====
-- chunkText of packages/platform/src/rag.ts, for a positive maximum. The loop's `start` is what has been
-- dropped of the source, and its `end` is counted from there; white space is a parameter.
use modelforge_ai.Base.{
  ℕ, zero, suc, ◌+◌, ◌-◌, min, Bool, Option, none, some, List, [], ◌∷◌, length, take, drop,
  if◌then◌else◌, ltb, leb,
}
use modelforge_ai.Base.Units.{Units, is_empty, trim}
use modelforge_ai.Base.Result.{Result, ok, err}

pub data ChunkingError : Type 0 where
  range_error : ChunkingError

module _ (is_space : ℕ → Bool) where
  abbrev pub count_on : Bool → Option ℕ → Option ℕ
  count_on space none = if space then some 0 else none
  count_on space (some zero) = if space then some 0 else some 1
  count_on space (some (suc n)) = some (suc (suc n))

  -- search(/\s+\S*$/): where the last run of white space begins.
  unfoldable pub last_break : Units → Option ℕ
  last_break [] = none
  last_break (c ∷ cs) = count_on (is_space c) (last_break cs)

  abbrev pub end_at_break : ℕ → Option ℕ → ℕ
  end_at_break end none = end
  end_at_break end (some boundary) = if ltb 0 boundary then boundary else end

  -- `end`: what is cut of the rest.
  unfoldable pub chunk_end : ℕ → Units → ℕ
  chunk_end max_chars rest =
      let end = min max_chars (length rest) in
      if ltb end (length rest) then end_at_break end (last_break (take (end + 1) rest)) else end

  -- How far `start` goes on.
  abbrev pub stride : ℕ → ℕ → ℕ
  stride overlap end = if leb end overlap then end else end - overlap

  -- chunks.push
  abbrev pub push_chunk : Units → List Units → List Units
  push_chunk chunk later = if is_empty chunk then later else chunk ∷ later

  abbrev pub push_before : Units → Option (List Units) → Option (List Units)
  push_before chunk none = none
  push_before chunk (some later) = some (push_chunk chunk later)

  module _ (max_chars overlap : ℕ) where
    -- The loop, on fuel.
    unfoldable pub chunk_rest : ℕ → Units → Option (List Units)
    chunk_rest fuel [] = some []
    chunk_rest zero (c ∷ cs) = none
    chunk_rest (suc fuel) (c ∷ cs) =
        let end = chunk_end max_chars (c ∷ cs) in
        let chunk = trim is_space (take end (c ∷ cs)) in
        let later = chunk_rest fuel (drop (stride overlap end) (c ∷ cs)) in
        if leb (length (c ∷ cs)) end then some (push_chunk chunk []) else push_before chunk later

  -- The fuel is the number of code units.
  abbrev pub chunk_source : ℕ → ℕ → Units → Option (List Units)
  chunk_source max_chars overlap_chars source =
      chunk_rest max_chars (min overlap_chars (max_chars - 1)) (length source) source

  unfoldable pub chunk_text : Units → ℕ → ℕ → Result ChunkingError (Option (List Units))
  chunk_text text max_chars overlap_chars =
      if ltb 0 max_chars
      then ok (chunk_source max_chars overlap_chars (trim is_space text))
      else err range_error
