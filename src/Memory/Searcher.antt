-- ===== src/Memory/Searcher.antt =====
-- services/memory-service/app/retrieval/searcher.py: the search over a tenant's memories, one
-- query per embedding model, and over its summaries.
pub mod Sources
pub mod Answers
use sutram.Prelude.{
  ℕ, ◌-◌, ◌/◌, List, [], ◌∷◌, ◌++◌, map, Bool, true, false, not, ◌&&◌, Option, none, some, Text,
  text_eq, codes, filter, any, Result, ok, err,
}
use sutram.Prelude.Program.{Program, pure, ◌>>=◌}
use sutram.Prelude.Slices.{ℤ}
use sutram.Models.{Uuid}
use sutram.Embedding.{EmbedError}
use sutram.Memory.Embedder.{Embedder, embed}
use sutram.Memory.Reranker.{Math, CandidateRow, ScoredCandidate, rerank}
use sutram.Memory.Tables.{MemoryItem, MemorySummary, Tables, Sql}

-- What the Searcher is built with and what it calls: `distance` is pgvector's `<=>`, `no_metadata`
-- the empty JSON object.
pub record Searcher (Db World Vector Failure F Time Metadata : Type 0) : Type 1 where
  pub embedder : Embedder Db World Vector Failure
  pub math : Math F
  pub seconds : Time → Time → F
  pub clock : ℕ → Time
  pub sql : Sql F
  pub subtract : F → F → F
  pub distance : Vector → Vector → F
  pub no_metadata : Metadata
  pub candidate_limit : ℕ
  pub half_life_days : F

-- `memory_types or ["episodic", "semantic", "procedural"]`
unfoldable pub type_filter : Option (List Text) → List Text
type_filter none = codes "episodic" ∷ codes "semantic" ∷ codes "procedural" ∷ []
type_filter (some []) = codes "episodic" ∷ codes "semantic" ∷ codes "procedural" ∷ []
type_filter (some (t ∷ ts)) = t ∷ ts

module _ {Vector Time Metadata : Type 0} where
  -- The WHERE clauses of the queries.
  unfoldable pub is_active : Uuid → MemoryItem Vector Time Metadata → Bool
  is_active tenant_id item = text_eq item.tenant_id tenant_id && not item.compressed

  unfoldable pub is_wanted : Uuid → List Text → Text → MemoryItem Vector Time Metadata → Bool
  unfolding is_active
  is_wanted tenant_id types model item =
      is_active tenant_id item
      && any (text_eq item.memory_type) types
      && text_eq item.embedding_model model

module _ {Vector Time : Type 0} where
  unfoldable pub is_summary_of : Uuid → Text → MemorySummary Vector Time → Bool
  is_summary_of tenant_id model summary =
      text_eq summary.tenant_id tenant_id && text_eq summary.embedding_model model

module _ {Db World Vector Failure F Time Metadata : Type 0}
    (service : Searcher Db World Vector Failure F Time Metadata) where
  unfoldable pub similarity : Vector → Vector → F
  similarity a b = service.subtract (service.math.literal "1") (service.distance a b)

  unfoldable pub item_candidate :
      Vector → MemoryItem Vector Time Metadata → CandidateRow F Time Metadata
  unfolding similarity
  item_candidate vector item = record {
    id = item.id;
    content = item.content;
    metadata = item.extra_metadata;
    embedding_model = item.embedding_model;
    accessed_at = item.accessed_at;
    access_count = item.access_count;
    similarity = similarity item.embedding vector;
    memory_type = item.memory_type;
  }

  unfoldable pub summary_candidate :
      Vector → MemorySummary Vector Time → CandidateRow F Time Metadata
  unfolding similarity
  summary_candidate vector summary = record {
    id = summary.id;
    content = summary.summary;
    metadata = service.no_metadata;
    embedding_model = summary.embedding_model;
    accessed_at = summary.created_at;
    access_count = 0;
    similarity = similarity summary.embedding vector;
    memory_type = codes "episodic";
  }

  -- A loop over the models of a table: embed the query, then append the rows.
  per_model :
      Text
      → (Text → Vector → List (CandidateRow F Time Metadata))
      → List Text
      → Program (EmbedError Failure) (Db × World) (List (CandidateRow F Time Metadata))
  per_model query rows [] = pure []
  per_model query rows (model ∷ models) = embed service.embedder query model >>= λ vector.
      per_model query rows models >>= λ rest. pure (rows model vector ++ rest)

  module _ (tables : Tables Vector Time Metadata) (query : Text) (tenant_id : Uuid) where
    unfoldable pub item_rows : List Text → Text → Vector → List (CandidateRow F Time Metadata)
    unfolding is_wanted item_candidate
    item_rows types model vector = map (item_candidate vector) (
        service.sql.nearest (λ item. service.distance item.embedding vector) service.candidate_limit
          (filter (is_wanted tenant_id types model) tables.items))

    unfoldable pub summary_rows : Text → Vector → List (CandidateRow F Time Metadata)
    unfolding is_summary_of summary_candidate
    summary_rows model vector = map (summary_candidate vector) (
        service.sql.nearest (λ summary. service.distance summary.embedding vector)
          (service.candidate_limit / 2) (filter (is_summary_of tenant_id model) tables.summaries))

    item_models : List Text
    unfolding is_active
    item_models =
        service.sql.distinct
          (map (λ item. item.embedding_model) (filter (is_active tenant_id) tables.items))

    summary_models : List Text
    summary_models = service.sql.distinct (
        map (λ summary. summary.embedding_model)
          (filter (λ summary. text_eq summary.tenant_id tenant_id) tables.summaries))

    ranked : ℤ → List (CandidateRow F Time Metadata) → List (ScoredCandidate F Time Metadata)
    ranked top_k [] = []
    ranked top_k (c ∷ cs) =
        rerank service.math service.seconds service.clock (c ∷ cs) top_k service.half_life_days

    unfoldable pub search :
        ℤ
        → Option (List Text)
        → Program (EmbedError Failure) (Db × World) (List (ScoredCandidate F Time Metadata))
    unfolding per_model item_models summary_models item_rows summary_rows ranked type_filter
    search top_k memory_types =
        per_model query (item_rows (type_filter memory_types)) item_models >>= λ items.
        per_model query summary_rows summary_models >>= λ summaries.
        pure (ranked top_k (items ++ summaries))
