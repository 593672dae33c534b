-- ===== src/Retrieval/Examples.antt =====
-- Retrieval on a small library, and the chunks of a short text.
use Prim.Native.String.{String}
use modelforge_ai.Base.{
  ℕ, ◌≤◌, ◌≡◌, refl, arith, Bool, true, false, none, some, List, [], ◌∷◌, length, ltb, leb,
}
use modelforge_ai.Base.Text.{◌==◌, text_eq, nat_eq}
use modelforge_ai.Base.Units.{Units, is_empty, trim, trim_start, trim_end}
use modelforge_ai.Base.Preds.{All}
use modelforge_ai.Base.Result.{ok, err}
use modelforge_ai.Retrieval.Knowledge.{
  KnowledgeDb, Passage, RetrievalInput, RetrievalResult, unknown_knowledge_base, Mode, unique_from,
  fit_hits_to_budget, fit_more, select_passages, rank_chunks, sort_ranked, insert_ranked,
  diversify_onto,
}
use modelforge_ai.Retrieval.Search.{
  Texts, retrieve_customer_knowledge, requested_ids, search_customer_knowledge,
}
use modelforge_ai.Retrieval.Isolation.{IsOwn, retrieve_customer_knowledge-Own}
use modelforge_ai.Retrieval.Chunking.{chunk_text, chunk_rest, chunk_end, last_break}
use modelforge_ai.Retrieval.Pieces.{chunk_text-IsChunk}

abbrev library : KnowledgeDb
library = record {
  bases =
      (record { id = "b1"; customer_id = "ada"; name = "Taxes" })
      ∷ (record { id = "b2"; customer_id = "eve"; name = "Secrets" })
      ∷ [];
  documents =
      (record { id = "d1"; knowledge_base_id = "b1"; title = "Returns"; succeeded = true })
      ∷ (record { id = "d2"; knowledge_base_id = "b2"; title = "Keys"; succeeded = true })
      ∷ [];
  versions =
      (record { id = "v1"; document_id = "d1"; number = 1 })
      ∷ (record { id = "v2"; document_id = "d2"; number = 1 })
      ∷ [];
  chunks =
      (record { id = "c1"; version_id = "v1"; ordinal = 0; content = "file by May" })
      ∷ (record { id = "c2"; version_id = "v2"; ordinal = 0; content = "the key" })
      ∷ [];
}

abbrev plain_texts : Texts ℕ
plain_texts = record {
  trim = λ s. s;
  is_catalog_query = λ q. q == "list";
  size = λ s. 10;
  excerpt = λ s. s;
  score = λ q p. 5;
  reaches_minimum = λ n. leb 1 n;
  is_above = λ a b. ltb b a;
  alike = λ p q. p.chunk_id == q.chunk_id;
}

abbrev asks : List String → RetrievalInput
asks ids = record {
  customer_id = "ada";
  query = "when to file";
  knowledge_base_ids = ids;
  top_k = none;
  context_length = some 4_096;
}

abbrev of_returns : Passage
of_returns = record {
  chunk_id = "c1";
  knowledge_base_id = "b1";
  knowledge_base_name = "Taxes";
  document_id = "d1";
  document_title = "Returns";
  ordinal = 0;
  content = "file by May";
}

abbrev found : RetrievalResult
found = record {
  knowledge_base_ids = "b1" ∷ [];
  top_k = 4;
  query = "when to file";
  hits = of_returns ∷ [];
  mode = Mode.passages;
}

retrieve_customer_knowledge-Own_example : All (IsOwn plain_texts "ada" library.bases) found.hits
unfolding retrieve_customer_knowledge requested_ids unique_from search_customer_knowledge
    fit_hits_to_budget rank_chunks diversify_onto sort_ranked select_passages insert_ranked fit_more
retrieve_customer_knowledge-Own_example =
    retrieve_customer_knowledge-Own plain_texts (asks ("b1" ∷ "b1" ∷ [])) library found
      (refl, (refl, tt)) refl

retrieve_other_base :
    retrieve_customer_knowledge plain_texts (asks ("b1" ∷ "b2" ∷ [])) library
    ≡ err unknown_knowledge_base
unfolding retrieve_customer_knowledge requested_ids unique_from search_customer_knowledge
retrieve_other_base = refl

abbrev blank : ℕ → Bool
blank c = c == 32

-- "ab cd efghi"
abbrev words : Units
words = 97 ∷ 98 ∷ 32 ∷ 99 ∷ 100 ∷ 32 ∷ 101 ∷ 102 ∷ 103 ∷ 104 ∷ 105 ∷ []

chunk_text-IsChunk_example :
    (out : List Units) × (chunk_text blank words 6 2 ≡ ok (some out))
    × All (λ (c : Units). (is_empty c ≡ false) × (length c ≤ 6)) out
chunk_text-IsChunk_example = chunk_text-IsChunk blank words 6 2 (omega arith)

chunk_text_run :
    chunk_text blank words 6 0
    ≡ ok (some ((97 ∷ 98 ∷ 32 ∷ 99 ∷ 100 ∷ []) ∷ (101 ∷ 102 ∷ 103 ∷ 104 ∷ 105 ∷ []) ∷ []))
unfolding chunk_text chunk_rest trim trim_end trim_start chunk_end last_break
chunk_text_run = refl
