-- ===== src/Retrieval/Kept.antt =====
-- What holds of every passage found holds of those that are ranked and fitted (packages/platform/src/
-- rag.ts, apps/gateway/src/lib/retrieval.ts): the steps of a search only leave out and move passages.
use Prim.Native.String.{String}
use modelforge_ai.Base.{
  ℕ, zero, suc, ◌+◌, inl, inr, Bool, Option, none, some, List, [], ◌∷◌, ◌++◌, map, length, take,
  ltb, leb, Bool-cases,
}
use modelforge_ai.Base.Preds.{filter, any, All}
use modelforge_ai.Retrieval.Knowledge.{
  Passage, fit_more, fit_hits_to_budget, fit_if_known, insert_ranked, sort_ranked, diversify_onto,
  rank_chunks,
}

module _ {A : Type 0} (P : A → Type 0) where
  pub All-take : (n : ℕ) (xs : List A) → All P xs → All P (take n xs)
  All-take zero xs h = tt
  All-take (suc n) [] h = tt
  All-take (suc n) (x ∷ xs) (first, h) = (first, All-take n xs h)

  pub All-filter : (p : A → Bool) (xs : List A) → All P xs → All P (filter p xs)
  All-filter p [] h = tt
  All-filter p (x ∷ xs) (first, h) = elim (Bool-cases (p x)) [
    | inl kept ↦ rw kept (first, All-filter p xs h)
    | inr gone ↦ rw gone (All-filter p xs h)
  ]

  pub All-append : (xs ys : List A) → All P xs → All P ys → All P (xs ++ ys)
  All-append [] ys h k = k
  All-append (x ∷ xs) ys (first, h) k = (first, All-append xs ys h k)

module _ (P : Passage → Type 0) where
  fit_more-All :
      (size : String → ℕ) (budget used : ℕ) (hs : List Passage)
      → All P hs
      → All P (fit_more size budget used hs)
  unfolding fit_more
  fit_more-All size budget used [] h = tt
  fit_more-All size budget used (x ∷ xs) (first, h) =
      elim (Bool-cases (ltb budget (used + size x.content))) [
        | inl over ↦ rw over tt
        | inr fits ↦ rw fits (first, fit_more-All size budget (used + size x.content) xs h)
      ]

  fit_hits_to_budget-All :
      (size : String → ℕ) (hs : List Passage) (context : ℕ)
      → All P hs
      → All P (fit_hits_to_budget size hs context)
  unfolding fit_hits_to_budget
  fit_hits_to_budget-All size [] context h = tt
  fit_hits_to_budget-All size (x ∷ xs) context (first, h) = (first, fit_more-All size _ _ xs h)

  pub fit_if_known-All :
      (size : String → ℕ) (context : Option ℕ) (hs : List Passage)
      → All P hs
      → All P (fit_if_known size context hs)
  fit_if_known-All size none hs h = h
  fit_if_known-All size (some context) hs h = elim (Bool-cases (ltb 0 context)) [
    | inl known ↦ rw known (fit_hits_to_budget-All size hs context h)
    | inr unknown ↦ rw unknown h
  ]

  module _ {Score : Type 0} (score : String → Passage → Score) (reaches_minimum : Score → Bool)
      (is_above : Score → Score → Bool) (alike : Passage → Passage → Bool) where
    abbrev Scored : Score × Passage → Type 0
    Scored p = P (p.1)

    insert_ranked-All :
        (p : Score × Passage) (ps : List (Score × Passage))
        → P (p.1)
        → All Scored ps
        → All Scored (insert_ranked score reaches_minimum is_above alike p ps)
    unfolding insert_ranked
    insert_ranked-All p [] first h = (first, tt)
    insert_ranked-All p (q ∷ qs) first (second, h) = elim (Bool-cases (is_above q.0 p.0)) [
      | inl above ↦ rw above (second, insert_ranked-All p qs first h)
      | inr below ↦ rw below (first, (second, h))
    ]

    sort_ranked-All :
        (ps : List (Score × Passage))
        → All Scored ps
        → All Scored (sort_ranked score reaches_minimum is_above alike ps)
    unfolding sort_ranked
    sort_ranked-All [] h = tt
    sort_ranked-All (p ∷ ps) (first, h) = insert_ranked-All p _ first (sort_ranked-All ps h)

    diversify_onto-All :
        (top_k : ℕ) (picked cs : List Passage)
        → All P picked
        → All P cs
        → All P (diversify_onto score reaches_minimum is_above alike top_k picked cs)
    unfolding diversify_onto
    diversify_onto-All top_k picked [] h k = h
    diversify_onto-All top_k picked (c ∷ cs) h (first, k) =
        let h' = All-append P picked (c ∷ []) h (first, tt) in
        elim (Bool-cases (any (λ p. alike p c) picked)) [
          | inl double ↦ rw double (diversify_onto-All top_k picked cs h k)
          | inr new ↦ elim (Bool-cases (leb top_k (length (picked ++ c ∷ [])))) [
            | inl full ↦ rw (new, full) h'
            | inr room ↦ rw (new, room) (diversify_onto-All top_k (picked ++ c ∷ []) cs h' k)
          ]
        ]

    map-Scored :
        (query : String) (rows : List Passage)
        → All P rows
        → All Scored (map (λ r. (score query r, r)) rows)
    map-Scored query [] h = tt
    map-Scored query (r ∷ rs) (first, h) = (first, map-Scored query rs h)

    passages-All : (ps : List (Score × Passage)) → All Scored ps → All P (map (λ p. p.1) ps)
    passages-All [] h = tt
    passages-All (p ∷ ps) (first, h) = (first, passages-All ps h)

    pub rank_chunks-All :
        (query : String) (top_k : ℕ) (rows : List Passage)
        → All P rows
        → All P (rank_chunks score reaches_minimum is_above alike query top_k rows)
    unfolding rank_chunks
    rank_chunks-All query top_k rows h =
        diversify_onto-All _ [] _ tt
          (passages-All _ (sort_ranked-All _ (All-filter Scored _ _ (map-Scored query rows h))))
