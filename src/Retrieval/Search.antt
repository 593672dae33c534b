-- ===== src/Retrieval/Search.antt =====
-- retrieveCustomerKnowledge and catalogCustomerKnowledge of apps/gateway/src/lib/retrieval.ts as a whole.
use Prim.Native.String.{String, ◌++◌ as ◌^^◌}
use modelforge_ai.Base.{
  ℕ, ◌+◌, min, max, Bool, not, ◌&&◌, Option, none, some, List, [], ◌∷◌, ◌++◌, map, length, take,
  if◌then◌else◌, ltb,
}
use modelforge_ai.Base.Text.{◌==◌, text_eq, nat_eq}
use modelforge_ai.Base.Preds.{filter}
use modelforge_ai.Base.Result.{Result, ok, err}
use modelforge_ai.Retrieval.Knowledge.{
  KnowledgeBase, Document, Version, Chunk, KnowledgeDb, Passage, RetrievalInput, RetrievalError,
  unknown_knowledge_base, passages, catalog, RetrievalResult, unique_from, or_number, own_bases,
  all_found, select_passages, fit_if_known, rank_chunks,
}

-- What the code takes from the language and from the scores of rag.ts.
pub record Texts (Score : Type 0) : Type 0 where
  pub trim : String → String
  pub is_catalog_query : String → Bool
  pub size : String → ℕ
  pub excerpt : String → String
  pub score : String → Passage → Score
  pub reaches_minimum : Score → Bool
  pub is_above : Score → Score → Bool
  pub alike : Passage → Passage → Bool

abbrev pub later_version : Version → Option Version → Option Version
later_version v none = some v
later_version v (some w) = if ltb v.number w.number then some w else some v

-- The latest version of a document.
unfoldable pub latest_version : String → List Version → Option Version
latest_version id [] = none
latest_version id (v ∷ vs) =
    let rest = latest_version id vs in if v.document_id == id then later_version v rest else rest

abbrev pub earlier_chunk : Chunk → Option Chunk → Option Chunk
earlier_chunk c none = some c
earlier_chunk c (some d) = if ltb d.ordinal c.ordinal then some d else some c

-- The first chunk of a version.
unfoldable pub first_chunk : String → List Chunk → Option Chunk
first_chunk id [] = none
first_chunk id (c ∷ cs) =
    let rest = first_chunk id cs in if c.version_id == id then earlier_chunk c rest else rest

abbrev pub chunk_of_version : List Chunk → Option Version → Option Chunk
chunk_of_version chunks none = none
chunk_of_version chunks (some v) = first_chunk v.id chunks

-- `versions[0]?.chunks[0]`
abbrev pub opening_chunk : KnowledgeDb → Document → Option Chunk
opening_chunk db d = chunk_of_version db.chunks (latest_version d.id db.versions)

module _ {Score : Type 0} (t : Texts Score) where
  -- The trimmed ids that are not empty, each once.
  unfoldable pub requested_ids : List String → List String
  requested_ids ids = unique_from [] (filter (λ id. not (id == "")) (map t.trim ids))

  abbrev pub preview : KnowledgeBase → Document → String → String
  preview b d opening =
      "This document is in knowledge base \""
      ^^ b.name
      ^^ "\".\nTitle: "
      ^^ d.title
      ^^ "\n"
      ^^ (if opening == "" then "No preview is available." else "Opening excerpt: " ^^ opening)

  abbrev pub document_entry : KnowledgeBase → ℕ → Document → Option Chunk → Passage
  document_entry b index d none = record {
    chunk_id = "catalog:" ^^ d.id;
    knowledge_base_id = b.id;
    knowledge_base_name = b.name;
    document_id = d.id;
    document_title = d.title;
    ordinal = index;
    content = preview b d "";
  }
  document_entry b index d (some c) = record {
    chunk_id = c.id;
    knowledge_base_id = b.id;
    knowledge_base_name = b.name;
    document_id = d.id;
    document_title = d.title;
    ordinal = index;
    content = preview b d (t.excerpt c.content);
  }

  -- The entries of a base's documents, numbered.
  unfoldable pub document_entries : KnowledgeDb → KnowledgeBase → ℕ → List Document → List Passage
  document_entries db b index [] = []
  document_entries db b index (d ∷ ds) =
      document_entry b index d (opening_chunk db d) ∷ document_entries db b (index + 1) ds

  abbrev pub empty_entry : KnowledgeBase → Passage
  empty_entry b = record {
    chunk_id = "catalog:" ^^ b.id;
    knowledge_base_id = b.id;
    knowledge_base_name = b.name;
    document_id = b.id;
    document_title = b.name;
    ordinal = 0;
    content = "Knowledge base \"" ^^ b.name ^^ "\" has no ingested documents yet.";
  }

  abbrev pub entries_or_empty : KnowledgeBase → List Passage → List Passage
  entries_or_empty b [] = empty_entry b ∷ []
  entries_or_empty b (e ∷ es) = e ∷ es

  unfoldable pub base_entries : KnowledgeDb → KnowledgeBase → List Passage
  base_entries db b = entries_or_empty b (
      document_entries db b 0
        (filter (λ d. d.knowledge_base_id == b.id && d.succeeded) db.documents))

  unfoldable pub catalog_entries : KnowledgeDb → List KnowledgeBase → List Passage
  catalog_entries db [] = []
  catalog_entries db (b ∷ bs) = base_entries db b ++ catalog_entries db bs

  unfoldable pub catalog_customer_knowledge :
      RetrievalInput → List String → KnowledgeDb → Result RetrievalError RetrievalResult
  catalog_customer_knowledge input requested db =
      let bases = own_bases input.customer_id requested db in
      let hits = catalog_entries db bases in
      if not (all_found bases requested)
      then err unknown_knowledge_base
      else ok (record {
        knowledge_base_ids = requested;
        top_k = max (length hits) 1;
        query = input.query;
        hits = hits;
        mode = catalog;
      })

  abbrev pub search_hits : RetrievalInput → List String → KnowledgeDb → ℕ → List Passage
  search_hits input requested db top_k = fit_if_known t.size input.context_length (
      rank_chunks t.score t.reaches_minimum t.is_above t.alike input.query top_k
        (take 4_000 (select_passages db requested db.chunks)))

  unfoldable pub search_customer_knowledge :
      RetrievalInput → List String → KnowledgeDb → Result RetrievalError RetrievalResult
  search_customer_knowledge input requested db =
      let top_k = max 1 (min (or_number input.top_k 4) 8) in
      if not (all_found (own_bases input.customer_id requested db) requested)
      then err unknown_knowledge_base
      else ok (record {
        knowledge_base_ids = requested;
        top_k = top_k;
        query = input.query;
        hits = search_hits input requested db top_k;
        mode = passages;
      })

  abbrev pub retrieve_requested :
      RetrievalInput → List String → KnowledgeDb → Result RetrievalError RetrievalResult
  retrieve_requested input [] db = ok (record {
    knowledge_base_ids = [];
    top_k = or_number input.top_k 4;
    query = input.query;
    hits = [];
    mode = passages;
  })
  retrieve_requested input (id ∷ ids) db =
      if t.is_catalog_query input.query
      then catalog_customer_knowledge input (id ∷ ids) db
      else search_customer_knowledge input (id ∷ ids) db

  unfoldable pub retrieve_customer_knowledge :
      RetrievalInput → KnowledgeDb → Result RetrievalError RetrievalResult
  retrieve_customer_knowledge input db =
      retrieve_requested input (requested_ids input.knowledge_base_ids) db
