-- ===== src/Retrieval/Isolation.antt =====
-- What a search of apps/gateway/src/lib/retrieval.ts gives is the customer's own.
use Prim.Native.String.{String}
use modelforge_ai.Base.{
  ℕ, ◌+◌, ◌≤◌, ◌≡◌, refl, subst, inl, inr, arith, Bool, true, false, ◌&&◌, Option, none, some, List,
  [], ◌∷◌, length, max, min, if◌then◌else◌, Bool-cases, Option-cases,
}
use modelforge_ai.Base.Text.{◌==◌, text_eq, nat_eq, beq_refl, eq_of_beq}
use modelforge_ai.Base.Preds.{find, filter, any, All, In-filter, All-of_In, any_of_In}
use modelforge_ai.Base.Result.{ok}
use modelforge_ai.Retrieval.Knowledge.{
  KnowledgeBase, Document, Version, Chunk, KnowledgeDb, Passage, RetrievalInput, RetrievalResult,
  is_one_of, is_own, own_bases, or_number, all_found, passage_of_base, passage_of_document,
  passage_of_version, select_passages,
}
use modelforge_ai.Retrieval.Search.{
  Texts, opening_chunk, requested_ids, document_entries, base_entries, entries_or_empty,
  catalog_entries, catalog_customer_knowledge, search_customer_knowledge, search_hits,
  retrieve_requested, retrieve_customer_knowledge,
}
use modelforge_ai.Retrieval.Kept.{All-take, All-append, fit_if_known-All, rank_chunks-All}

-- The ids of the table of knowledge bases are unique.
abbrev pub HasUniqueBases : List KnowledgeBase → Type 0
HasUniqueBases [] = Unit
HasUniqueBases (b ∷ bs) = (any (λ other. b.id == other.id) bs ≡ false) × HasUniqueBases bs

-- A customer's knowledge base has that id.
abbrev pub owns : String → List KnowledgeBase → String → Bool
owns customer bs id = any (λ b. b.customer_id == customer && id == b.id) bs

module _ (customer : String) where
  count_single :
      (id : String) (bs : List KnowledgeBase)
      → any (λ b. id == b.id) bs ≡ false
      → length (filter (λ b. b.customer_id == customer && id == b.id) bs) ≡ 0
  count_single id [] h = refl
  count_single id (b ∷ bs) h = ground (arith, h, count_single id bs)

  -- One id has at most one knowledge base, and none if the customer owns none.
  count_one :
      (id : String) (bs : List KnowledgeBase)
      → HasUniqueBases bs
      → length (filter (λ b. b.customer_id == customer && id == b.id) bs)
        ≤ (if owns customer bs id then 1 else 0)
  count_one id [] u = omega arith
  count_one id (b ∷ bs) (single, u) = elim (Bool-cases (id == b.id)) [
    | inl same ↦
        let q : id ≡ b.id = eq_of_beq id b.id same in
        let alone : any (λ other. id == other.id) bs ≡ false = rw q single in
        ground (arith, same, count_single id bs alone)
    | inr other ↦ ground (arith, other, count_one id bs u)
  ]

  count_split :
      (id : String) (ids : List String) (bs : List KnowledgeBase)
      → length (filter (is_own customer (id ∷ ids)) bs)
        ≤ length (filter (λ b. b.customer_id == customer && id == b.id) bs)
          + length (filter (is_own customer ids) bs)
  count_split id ids [] = omega arith
  count_split id ids (b ∷ bs) = ground (arith, count_split id ids bs)

  count_none : (bs : List KnowledgeBase) → length (filter (is_own customer []) bs) ≡ 0
  count_none [] = refl
  count_none (b ∷ bs) = ground (arith, count_none bs)

  -- The bases found are no more than the ids that the customer owns.
  count_owned :
      (ids : List String) (bs : List KnowledgeBase)
      → HasUniqueBases bs
      → length (filter (is_own customer ids) bs) ≤ length (filter (owns customer bs) ids)
  count_owned [] bs u = omega (arith, count_none bs)
  count_owned (id ∷ ids) bs u =
      ground (arith, count_split id ids bs, count_one id bs u, count_owned ids bs u)

length-filter-le : {A : Type 0} (p : A → Bool) (xs : List A) → length (filter p xs) ≤ length xs
length-filter-le p [] = omega arith
length-filter-le p (x ∷ xs) = ground (arith, length-filter-le p xs)

all_kept :
    (p : String → Bool) (xs : List String) (x : String)
    → length xs ≤ length (filter p xs)
    → is_one_of xs x ≡ true
    → p x ≡ true
all_kept p [] x h m = cc
all_kept p (y ∷ ys) x h m = elim (Bool-cases (y == x)) [
  | inl same ↦
      let q : y ≡ x = eq_of_beq y x same in rw (← q) (ground (arith, h, length-filter-le p ys))
  | inr other ↦
      all_kept p ys x (ground (arith, h, length-filter-le p ys)) (ground (arith, m, other))
]

-- Where as many bases are found as were asked for, the customer owns each of them.
all_found-owns :
    (customer : String) (requested : List String) (db : KnowledgeDb) (id : String)
    → HasUniqueBases db.bases
    → all_found (own_bases customer requested db) requested ≡ true
    → is_one_of requested id ≡ true
    → owns customer db.bases id ≡ true
all_found-owns customer requested db id u h m =
    all_kept (owns customer db.bases) requested id
      (ground (arith, h, count_owned customer requested db.bases u)) m

module _ (requested : List String) where
  -- The passage is of a base asked for.
  abbrev IsRequested : Passage → Type 0
  IsRequested p = is_one_of requested p.knowledge_base_id ≡ true

  passage_of_base-IsRequested :
      (c : Chunk) (d : Document) (b : Option KnowledgeBase)
      → is_one_of requested d.knowledge_base_id ≡ true
      → All IsRequested (passage_of_base c d b)
  passage_of_base-IsRequested c d none h = tt
  passage_of_base-IsRequested c d (some b) h = (h, tt)

  passage_of_document-IsRequested :
      (db : KnowledgeDb) (c : Chunk) (d : Option Document)
      → All IsRequested (passage_of_document db requested c d)
  passage_of_document-IsRequested db c none = tt
  passage_of_document-IsRequested db c (some d) =
      elim (Bool-cases (d.succeeded && is_one_of requested d.knowledge_base_id)) [
        | inl good ↦ rw good (passage_of_base-IsRequested c d _ (ground (arith, good)))
        | inr bad ↦ rw bad tt
      ]

  passage_of_version-IsRequested :
      (db : KnowledgeDb) (c : Chunk) (v : Option Version)
      → All IsRequested (passage_of_version db requested c v)
  passage_of_version-IsRequested db c none = tt
  passage_of_version-IsRequested db c (some v) =
      passage_of_document-IsRequested db c (find (λ d. d.id == v.document_id) db.documents)

  select_passages-IsRequested :
      (db : KnowledgeDb) (cs : List Chunk) → All IsRequested (select_passages db requested cs)
  unfolding select_passages
  select_passages-IsRequested db [] = tt
  select_passages-IsRequested db (c ∷ cs) =
      All-append IsRequested _ _
        (passage_of_version-IsRequested db c (find (λ v. v.id == c.version_id) db.versions))
        (select_passages-IsRequested db cs)

module _ {Score : Type 0} (t : Texts Score) (customer : String) (all : List KnowledgeBase) where
  -- The passage is of a base of the customer.
  abbrev pub IsOwn : Passage → Type 0
  IsOwn p = owns customer all p.knowledge_base_id ≡ true

  document_entries-IsOwn :
      (db : KnowledgeDb) (b : KnowledgeBase) (index : ℕ) (ds : List Document)
      → owns customer all b.id ≡ true
      → All IsOwn (document_entries t db b index ds)
  unfolding document_entries
  document_entries-IsOwn db b index [] h = tt
  document_entries-IsOwn db b index (d ∷ ds) h = elim (Option-cases (opening_chunk db d)) [
    | inl unopened ↦ rw unopened (h, document_entries-IsOwn db b (index + 1) ds h)
    | inr (c, opened) ↦ rw opened (h, document_entries-IsOwn db b (index + 1) ds h)
  ]

  entries_or_empty-IsOwn :
      (b : KnowledgeBase) (es : List Passage)
      → owns customer all b.id ≡ true
      → All IsOwn es
      → All IsOwn (entries_or_empty t b es)
  entries_or_empty-IsOwn b [] h k = (h, tt)
  entries_or_empty-IsOwn b (e ∷ es) h k = k

  catalog_entries-IsOwn :
      (db : KnowledgeDb) (bs : List KnowledgeBase)
      → All (λ (b : KnowledgeBase). owns customer all b.id ≡ true) bs
      → All IsOwn (catalog_entries t db bs)
  unfolding catalog_entries base_entries
  catalog_entries-IsOwn db [] h = tt
  catalog_entries-IsOwn db (b ∷ bs) (own, h) =
      All-append IsOwn _ _ (entries_or_empty-IsOwn b _ own (document_entries-IsOwn db b 0 _ own))
        (catalog_entries-IsOwn db bs h)

owned_in :
    (customer : String) (requested : List String) (bs : List KnowledgeBase)
    → All
        (λ (b : KnowledgeBase). owns customer bs b.id ≡ true)
        (filter (is_own customer requested) bs)
owned_in customer requested bs = All-of_In _ _ (λ b m.
    let (there, own) = (In-filter (is_own customer requested) bs b).0 m in
    any_of_In (λ other. other.customer_id == customer && b.id == other.id) bs b there
      (ground (arith, own, beq_refl b.id)))

All-map :
    {A : Type 0} (P Q : A → Type 0) → ((a : A) → P a → Q a) → (xs : List A) → All P xs → All Q xs
All-map P Q f [] h = tt
All-map P Q f (x ∷ xs) (first, h) = (f x first, All-map P Q f xs h)

module _ {Score : Type 0} (t : Texts Score) (input : RetrievalInput) (db : KnowledgeDb)
    (r : RetrievalResult) where
  abbrev Own : List Passage → Type 0
  Own hits = All (IsOwn t input.customer_id db.bases) hits

  catalog_customer_knowledge-Own :
      (requested : List String)
      → catalog_customer_knowledge t input requested db ≡ ok r
      → Own r.hits
  unfolding catalog_customer_knowledge
  catalog_customer_knowledge-Own requested h =
      let bases = own_bases input.customer_id requested db in
      let given : catalog_entries t db bases ≡ r.hits =
        (elim (Bool-cases (all_found bases requested)) [
          | inl found ↦ ground (arith, h, found)
          | inr missing ↦ absurd (ground (arith, h, missing))
        ]) in
      subst Own given (
        catalog_entries-IsOwn t input.customer_id db.bases db bases
          (owned_in input.customer_id requested db.bases))

  search_customer_knowledge-Own :
      (requested : List String)
      → HasUniqueBases db.bases
      → search_customer_knowledge t input requested db ≡ ok r
      → Own r.hits
  unfolding search_customer_knowledge
  search_customer_knowledge-Own requested u h =
      let bases = own_bases input.customer_id requested db in
      let top_k = max 1 (min (or_number input.top_k 4) 8) in
      elim (Bool-cases (all_found bases requested)) [
        | inl found ↦
            let given : search_hits t input requested db top_k ≡ r.hits =
              ground (arith, h, found) in
            subst Own given (
              fit_if_known-All (IsOwn t input.customer_id db.bases) t.size input.context_length _ (
                rank_chunks-All (IsOwn t input.customer_id db.bases) t.score t.reaches_minimum
                  t.is_above t.alike input.query top_k _
                  (All-take _ 4_000 _ (
                    All-map (IsRequested requested) _
                      (λ p m.
                        all_found-owns input.customer_id requested db p.knowledge_base_id u found m)
                      _ (select_passages-IsRequested requested db db.chunks)))))
        | inr missing ↦ absurd (ground (arith, h, missing))
      ]

  retrieve_requested-Own :
      (requested : List String)
      → HasUniqueBases db.bases
      → retrieve_requested t input requested db ≡ ok r
      → Own r.hits
  retrieve_requested-Own [] u h = let given : [] ≡ r.hits = ground (arith, h) in subst Own given tt
  retrieve_requested-Own (id ∷ ids) u h = elim (Bool-cases (t.is_catalog_query input.query)) [
    | inl listing ↦ catalog_customer_knowledge-Own (id ∷ ids) (ground (arith, h, listing))
    | inr asking ↦ search_customer_knowledge-Own (id ∷ ids) u (ground (arith, h, asking))
  ]

  -- Every passage that a search gives is of a knowledge base of the customer who asks, where the ids of
  -- knowledge bases are unique.
  pub retrieve_customer_knowledge-Own :
      HasUniqueBases db.bases → retrieve_customer_knowledge t input db ≡ ok r → Own r.hits
  unfolding retrieve_customer_knowledge
  retrieve_customer_knowledge-Own u h =
      retrieve_requested-Own (requested_ids t input.knowledge_base_ids) u h
