-- ===== src/Retrieval/Pieces.antt =====
-- What chunkText of packages/platform/src/rag.ts makes of a text: it ends, its chunks are short, and
-- together they say what the text says.
use modelforge_ai.Base.{
  ℕ, zero, suc, ◌+◌, ◌-◌, ◌≤◌, ◌<◌, min, ◌≡◌, refl, sym, ap, ◌∙◌, inl, inr, arith, Bool, true,
  false, Option, none, some, List, [], ◌∷◌, ◌++◌, length, take, drop, length-take, length-drop,
  take-append-drop, ltb, leb, Bool-cases,
}
use mathlib.Core.List.{append-nil}
use modelforge_ai.Base.Units.{
  Units, is_empty, trim, visible, visible-append, visible-trim, length-trim,
}
use modelforge_ai.Base.Preds.{All}
use modelforge_ai.Base.Result.{ok}
use modelforge_ai.Retrieval.Chunking.{
  count_on, last_break, end_at_break, chunk_end, stride, push_chunk, push_before, chunk_rest,
  chunk_text,
}

module _ (is_space : ℕ → Bool) where
  count_on-lt :
      (space : Bool) (o : Option ℕ) (len n : ℕ)
      → ((m : ℕ) → o ≡ some m → m < len)
      → count_on is_space space o ≡ some n
      → n < suc len
  count_on-lt true none len n below h = ground (arith, h)
  count_on-lt false none len n below h = cc
  count_on-lt true (some zero) len n below h = ground (arith, h)
  count_on-lt false (some zero) len n below h = ground (arith, h, below 0 refl)
  count_on-lt space (some (suc m)) len n below h = ground (arith, h, below (suc m) refl)

  -- A break is within the text.
  last_break-lt : (xs : Units) (n : ℕ) → last_break is_space xs ≡ some n → n < length xs
  unfolding last_break
  last_break-lt [] n h = cc
  last_break-lt (c ∷ cs) n h =
      count_on-lt (is_space c) (last_break is_space cs) (length cs) n (last_break-lt cs) h

  end_at_break_bounds :
      (end : ℕ) (o : Option ℕ)
      → 0 < end
      → ((m : ℕ) → o ≡ some m → m < suc end)
      → (0 < end_at_break is_space end o) × (end_at_break is_space end o ≤ end)
  end_at_break_bounds end none h below = (h, omega arith)
  end_at_break_bounds end (some m) h below = ground (arith, below m refl)

  -- What the chunks say, one after the other.
  abbrev pub said : List Units → Units
  said [] = []
  said (c ∷ cs) = visible is_space c ++ said cs

  module _ (max_chars : ℕ) (positive : 0 < max_chars) where
    -- A chunk takes something, and no more than the maximum.
    chunk_end_bounds :
        (rest : Units)
        → 0 < length rest
        → (0 < chunk_end is_space max_chars rest)
          × (chunk_end is_space max_chars rest ≤ max_chars)
          × (chunk_end is_space max_chars rest ≤ length rest)
    unfolding chunk_end
    chunk_end_bounds rest some_left =
        let end = min max_chars (length rest) in
        let window = take (end + 1) rest in
        let (above, below) =
          end_at_break_bounds end (last_break is_space window) (omega arith) (λ m h.
            let within = last_break-lt window m h in omega (arith, length-take (end + 1) rest)) in
        elim (Bool-cases (ltb end (length rest))) [
          | inl more ↦ rw more (above, omega arith, omega arith)
          | inr all ↦ rw all (omega arith, omega arith, omega arith)
        ]

    module _ (overlap : ℕ) where
      stride-pos : (end : ℕ) → 0 < end → 0 < stride is_space overlap end
      stride-pos end h = ground (arith, h)

      push_before-some :
          (chunk : Units) (o : Option (List Units))
          → ((out : List Units) × (o ≡ some out))
          → (out : List Units) × (push_before is_space chunk o ≡ some out)
      push_before-some chunk o (out, h) = (push_chunk is_space chunk out, rw h refl)

      abbrev cut : Units → Units
      cut rest = trim is_space (take (chunk_end is_space max_chars rest) rest)

      abbrev onward : Units → Units
      onward rest = drop (stride is_space overlap (chunk_end is_space max_chars rest)) rest

      -- Induction along the loop, which ends: the code units left are fuel enough.
      module _ (Q : Units → List Units → Type 0) (done : Q [] [])
          (last : (rest : Units)
            → 0 < length rest
            → length rest ≤ chunk_end is_space max_chars rest
            → Q rest (push_chunk is_space (cut rest) []))
          (step : (rest : Units) (later : List Units)
            → 0 < length rest
            → Q (onward rest) later
            → Q rest (push_chunk is_space (cut rest) later)) where
        chunk_rest-induct :
            (fuel : ℕ) (rest : Units)
            → length rest ≤ fuel
            → (out : List Units) × (chunk_rest is_space max_chars overlap fuel rest ≡ some out)
              × Q rest out
        unfolding chunk_rest
        chunk_rest-induct fuel [] h = ([], refl, done)
        chunk_rest-induct zero (c ∷ cs) h = absurd (omega arith)
        chunk_rest-induct (suc fuel) (c ∷ cs) h =
            let end = chunk_end is_space max_chars (c ∷ cs) in
            let (some_taken, _, _) = chunk_end_bounds (c ∷ cs) (omega arith) in
            let shorter : length (onward (c ∷ cs)) ≤ fuel = omega (
              arith,
              length-drop (stride is_space overlap end) (c ∷ cs),
              stride-pos end some_taken,
            ) in
            elim (Bool-cases (leb (length (c ∷ cs)) end)) [
              | inl all ↦ (
                push_chunk is_space (cut (c ∷ cs)) [],
                rw all refl,
                last (c ∷ cs) (omega arith) (ground (arith, all)),
              )
              | inr more ↦
                  let (later, given, q) = chunk_rest-induct fuel (onward (c ∷ cs)) shorter in
                  (
                    push_chunk is_space (cut (c ∷ cs)) later,
                    rw (more, given) refl,
                    step (c ∷ cs) later (omega arith) q,
                  )
            ]

      -- A chunk of a good size.
      abbrev pub IsChunk : Units → Type 0
      IsChunk c = (is_empty c ≡ false) × (length c ≤ max_chars)

      push_chunk-IsChunk :
          (rest : Units) (later : List Units)
          → 0 < length rest
          → All IsChunk later
          → All IsChunk (push_chunk is_space (cut rest) later)
      push_chunk-IsChunk rest later some_left h =
          let end = chunk_end is_space max_chars rest in
          let (_, short, _) = chunk_end_bounds rest some_left in
          elim (Bool-cases (is_empty (cut rest))) [
            | inl nothing ↦ rw nothing h
            | inr chunk ↦ rw chunk (
              (chunk, omega (arith, length-trim is_space (take end rest), length-take end rest)),
              h,
            )
          ]

      chunk_rest-IsChunk :
          (rest : Units)
          → (out : List Units) × (chunk_rest is_space max_chars overlap (length rest) rest
              ≡ some out)
            × All IsChunk out
      chunk_rest-IsChunk rest =
          chunk_rest-induct (λ rest out. All IsChunk out) tt
            (λ rest left all. push_chunk-IsChunk rest [] left tt)
            (λ rest later left h. push_chunk-IsChunk rest later left h) (length rest) rest
            (omega arith)

    said-push_chunk :
        (chunk : Units) (later : List Units)
        → said (push_chunk is_space chunk later) ≡ visible is_space chunk ++ said later
    said-push_chunk [] later = refl
    said-push_chunk (c ∷ cs) later = refl

    take_all : (n : ℕ) (xs : Units) → length xs ≤ n → take n xs ≡ xs
    take_all zero [] h = refl
    take_all zero (x ∷ xs) h = absurd (omega arith)
    take_all (suc n) [] h = refl
    take_all (suc n) (x ∷ xs) h = ap (λ t. x ∷ t) (take_all n xs (omega arith))

    stride_all : (end : ℕ) → stride is_space 0 end ≡ end
    stride_all end = ground arith

    chunk_rest-said :
        (rest : Units)
        → (out : List Units) × (chunk_rest is_space max_chars 0 (length rest) rest ≡ some out)
          × (said out ≡ visible is_space rest)
    chunk_rest-said rest =
        chunk_rest-induct 0 (λ rest out. said out ≡ visible is_space rest) refl
          (λ rest left all.
            said-push_chunk (cut 0 rest) []
            ∙ append-nil _
            ∙ visible-trim is_space (take (chunk_end is_space max_chars rest) rest)
            ∙ ap (visible is_space) (take_all (chunk_end is_space max_chars rest) rest all))
          (λ rest later left h.
            let end = chunk_end is_space max_chars rest in
            said-push_chunk (cut 0 rest) later
            ∙ ap (λ v. v ++ said later) (visible-trim is_space (take end rest))
            ∙ ap (λ v. visible is_space (take end rest) ++ v) h
            ∙ ap (λ n. visible is_space (take end rest) ++ visible is_space (drop n rest))
                (stride_all end)
            ∙ sym (visible-append is_space (take end rest) (drop end rest))
            ∙ ap (visible is_space) (take-append-drop end rest))
          (length rest) rest (omega arith)

  -- For a positive maximum the cutting ends, whatever the overlap is, and every chunk has a code unit and
  -- no more than the maximum.
  pub chunk_text-IsChunk :
      (text : Units) (max_chars overlap_chars : ℕ)
      → (positive : 0 < max_chars)
      → (out : List Units) × (chunk_text is_space text max_chars overlap_chars ≡ ok (some out))
        × All (λ (c : Units). (is_empty c ≡ false) × (length c ≤ max_chars)) out
  unfolding chunk_text
  chunk_text-IsChunk text max_chars overlap_chars positive =
      let tested : ltb 0 max_chars ≡ true = ground (arith, positive) in
      let (out, given, good) =
        chunk_rest-IsChunk max_chars positive (min overlap_chars (max_chars - 1))
          (trim is_space text) in
      (out, rw (tested, given) refl, good)

  -- Without an overlap the chunks say what the text says: nothing visible is lost, repeated or moved.
  pub chunk_text-said :
      (text : Units) (max_chars : ℕ)
      → (positive : 0 < max_chars)
      → (out : List Units) × (chunk_text is_space text max_chars 0 ≡ ok (some out))
        × (said out ≡ visible is_space text)
  unfolding chunk_text
  chunk_text-said text max_chars positive =
      let tested : ltb 0 max_chars ≡ true = ground (arith, positive) in
      let (out, given, same) = chunk_rest-said max_chars positive (trim is_space text) in
      let none_over : min 0 (max_chars - 1) ≡ 0 = omega arith in
      (out, rw (tested, none_over, given) refl, same ∙ visible-trim is_space text)
