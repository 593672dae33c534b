-- ===== src/Retrieval/Knowledge.antt =====
-- retrieveCustomerKnowledge and catalogCustomerKnowledge of apps/gateway/src/lib/retrieval.ts, with
-- rankChunks and diversifyChunks of packages/platform/src/rag.ts. A score is a fraction made of counts of
-- words, and what it is, when it reaches the minimum, when it is above another and which passages are
-- alike are parameters; so are trim, the test of a question for the catalog, the number of code units of a
-- text, and the excerpt of a document. A chunk belongs to a version of a document.
use Prim.Native.String.{String}
use modelforge_ai.Base.{
  ℕ, ◌+◌, ◌*◌, ◌/◌, min, max, Bool, ◌&&◌, Option, none, some, List, [], ◌∷◌, ◌++◌, map, length,
  if◌then◌else◌, ltb, leb,
}
use modelforge_ai.Base.Text.{◌==◌, text_eq, nat_eq}
use modelforge_ai.Base.Preds.{find, filter, any}

pub record KnowledgeBase : Type 0 where
  pub id : String
  pub customer_id : String
  pub name : String

pub record Document : Type 0 where
  pub id : String
  pub knowledge_base_id : String
  pub title : String
  pub succeeded : Bool

pub record Version : Type 0 where
  pub id : String
  pub document_id : String
  pub number : ℕ

pub record Chunk : Type 0 where
  pub id : String
  pub version_id : String
  pub ordinal : ℕ
  pub content : String

pub record KnowledgeDb : Type 0 where
  pub bases : List KnowledgeBase
  pub documents : List Document
  pub versions : List Version
  pub chunks : List Chunk

-- A chunk with what is selected of its document and of its knowledge base; the score is left out.
pub record Passage : Type 0 where
  pub chunk_id : String
  pub knowledge_base_id : String
  pub knowledge_base_name : String
  pub document_id : String
  pub document_title : String
  pub ordinal : ℕ
  pub content : String

pub record RetrievalInput : Type 0 where
  pub customer_id : String
  pub query : String
  pub knowledge_base_ids : List String
  pub top_k : Option ℕ
  pub context_length : Option ℕ

pub data RetrievalError : Type 0 where
  unknown_knowledge_base : RetrievalError

pub data Mode : Type 0 where
  passages catalog : Mode

pub record RetrievalResult : Type 0 where
  pub knowledge_base_ids : List String
  pub top_k : ℕ
  pub query : String
  pub hits : List Passage
  pub mode : Mode

abbrev pub is_one_of : List String → String → Bool
is_one_of ids id = any (λ other. other == id) ids

-- new Set: each value at its first place.
unfoldable pub unique_from : List String → List String → List String
unique_from seen [] = []
unique_from seen (id ∷ ids) =
    let later = unique_from (id ∷ seen) ids in
    let rest = unique_from seen ids in if is_one_of seen id then rest else id ∷ later

abbrev pub or_number : Option ℕ → ℕ → ℕ
or_number none d = d
or_number (some n) d = n

-- The customer's knowledge bases among those asked for.
abbrev pub is_own : String → List String → KnowledgeBase → Bool
is_own customer requested b = b.customer_id == customer && is_one_of requested b.id

abbrev pub own_bases : String → List String → KnowledgeDb → List KnowledgeBase
own_bases customer requested db = filter (is_own customer requested) db.bases

abbrev pub all_found : List KnowledgeBase → List String → Bool
all_found bases requested = length bases == length requested

abbrev pub passage_of_base : Chunk → Document → Option KnowledgeBase → List Passage
passage_of_base c d none = []
passage_of_base c d (some b) =
    (record {
      chunk_id = c.id;
      knowledge_base_id = d.knowledge_base_id;
      knowledge_base_name = b.name;
      document_id = d.id;
      document_title = d.title;
      ordinal = c.ordinal;
      content = c.content;
    })
    ∷ []

-- What the query selects of a chunk, where its document has succeeded and is in a base asked for.
abbrev pub passage_of_document : KnowledgeDb → List String → Chunk → Option Document → List Passage
passage_of_document db requested c none = []
passage_of_document db requested c (some d) =
    if d.succeeded && is_one_of requested d.knowledge_base_id
    then passage_of_base c d (find (λ b. b.id == d.knowledge_base_id) db.bases)
    else []

abbrev pub passage_of_version : KnowledgeDb → List String → Chunk → Option Version → List Passage
passage_of_version db requested c none = []
passage_of_version db requested c (some v) =
    passage_of_document db requested c (find (λ d. d.id == v.document_id) db.documents)

unfoldable pub select_passages : KnowledgeDb → List String → List Chunk → List Passage
select_passages db requested [] = []
select_passages db requested (c ∷ cs) =
    passage_of_version db requested c (find (λ v. v.id == c.version_id) db.versions)
    ++ select_passages db requested cs

-- fitHitsToBudget with the budget of characters, nine tenths of the context; `size` is the number of code
-- units of a text.
module _ (size : String → ℕ) where
  abbrev pub passage_char_budget : ℕ → ℕ
  passage_char_budget context = max 800 (context * 9 / 10)

  -- The loop, behind a first passage.
  unfoldable pub fit_more : ℕ → ℕ → List Passage → List Passage
  fit_more budget used [] = []
  fit_more budget used (h ∷ hs) =
      let rest = fit_more budget (used + size h.content) hs in
      if ltb budget (used + size h.content) then [] else h ∷ rest

  unfoldable pub fit_hits_to_budget : List Passage → ℕ → List Passage
  fit_hits_to_budget [] context = []
  fit_hits_to_budget (h ∷ hs) context =
      h ∷ fit_more (passage_char_budget context) (size h.content) hs

  -- No context length, and the length 0, leave the hits.
  abbrev pub fit_if_known : Option ℕ → List Passage → List Passage
  fit_if_known none hits = hits
  fit_if_known (some context) hits = if ltb 0 context then fit_hits_to_budget hits context else hits

module _ {Score : Type 0} (score : String → Passage → Score) (reaches_minimum : Score → Bool)
    (is_above : Score → Score → Bool) (alike : Passage → Passage → Bool) where
  -- sort, by falling score
  unfoldable pub insert_ranked : Score × Passage → List (Score × Passage) → List (Score × Passage)
  insert_ranked p [] = p ∷ []
  insert_ranked p (q ∷ qs) =
      let rest = insert_ranked p qs in if is_above q.0 p.0 then q ∷ rest else p ∷ q ∷ qs

  unfoldable pub sort_ranked : List (Score × Passage) → List (Score × Passage)
  sort_ranked [] = []
  sort_ranked (p ∷ ps) = insert_ranked p (sort_ranked ps)

  -- The loop of diversifyChunks, with what is picked.
  unfoldable pub diversify_onto : ℕ → List Passage → List Passage → List Passage
  diversify_onto top_k picked [] = picked
  diversify_onto top_k picked (c ∷ cs) =
      let picked' = picked ++ c ∷ [] in
      let skipped = diversify_onto top_k picked cs in
      let more = diversify_onto top_k picked' cs in
      if any (λ p. alike p c) picked
      then skipped
      else (if leb top_k (length picked') then picked' else more)

  unfoldable pub rank_chunks : String → ℕ → List Passage → List Passage
  rank_chunks query top_k rows =
      let scored = filter (λ p. reaches_minimum p.0) (map (λ r. (score query r, r)) rows) in
      diversify_onto (max 1 (min top_k 12)) [] (map (λ p. p.1) (sort_ranked scored))
