-- ===== src/Memory/Searcher/Answers.antt =====
-- services/memory-service/app/retrieval/searcher.py: the results of a search.
use sutram.Prelude.{
  ℕ, ◌≡◌, refl, List, [], ◌∷◌, ◌++◌, length, length-take_le, Option, Text, text_eq, All, All-append,
  All-map, All-filter, All-of_map, All-take, ok, arith,
}
use sutram.Prelude.Slices.{IsAtMost, ℤ, pos, negsuc, slice_to}
use sutram.Models.{Uuid}
use sutram.Memory.Embedder.{embed}
use sutram.Memory.Reranker.{CandidateRow, ScoredCandidate, score_all, sort_scored, rerank}
use sutram.Memory.Reranker.Ranking.{All-sort_scored}
use sutram.Memory.Tables.{Tables}
use sutram.Memory.Searcher.{
  Searcher, type_filter, is_active, per_model, item_rows, summary_rows, item_models, summary_models,
  ranked, search,
}
use sutram.Memory.Searcher.Sources.{IsFound, item_rows-IsFound, summary_rows-IsFound}

All-slice_to {ℓ κ} :
    {A : Type ℓ} (P : A → Type κ) (n : ℤ) (xs : List A) → All P xs → All P (slice_to n xs)
All-slice_to P (pos n) xs a = All-take P n xs a
All-slice_to P (negsuc n) xs a = All-take P _ xs a

module _ {Db World Vector Failure F Time Metadata : Type 0}
    (service : Searcher Db World Vector Failure F Time Metadata)
    (tables : Tables Vector Time Metadata) (query : Text) (tenant_id : Uuid)
    (oracle : Text → Vector) (IsKnown : Text → Type 0) (IsReady : Db × World → Type 0) where
  per_model-All :
      (P : CandidateRow F Time Metadata → Type 0)
      (rows : Text → Vector → List (CandidateRow F Time Metadata))
      → ((model : Text) → All P (rows model (oracle model)))
      → ((model : Text) (s : Db × World)
          → IsKnown model
          → IsReady s
          → ((embed service.embedder query model s).0 ≡ ok (oracle model))
            × IsReady (embed service.embedder query model s).1)
      → (models : List Text) (s : Db × World) → All IsKnown models
      → IsReady s
      → (cs : List (CandidateRow F Time Metadata)) × ((per_model service query rows models s).0
          ≡ ok cs)
        × All P cs
        × IsReady (per_model service query rows models s).1
  unfolding per_model
  per_model-All P rows each embeds [] s known ready = ([], refl, tt, ready)
  per_model-All P rows each embeds (model ∷ models) s known ready =
      let (vector, ready') = embeds model s known.0 ready in
      let (cs, e, a, ready'') =
        per_model-All P rows each embeds models (embed service.embedder query model s).1 known.1
          ready' in
      (
        rows model (oracle model) ++ cs,
        rw vector (rw e refl),
        All-append P _ cs (each model) a,
        rw vector (rw e ready''),
      )

  item_models-IsKnown :
      All (λ i. IsKnown i.embedding_model) tables.items
      → All IsKnown (item_models service tables query tenant_id)
  unfolding item_models
  item_models-IsKnown known = service.sql.distinct-All _ _ (
      All-of_map _ _ _
        (All-map _ (λ i p. p.0) (All-filter _ (is_active tenant_id) tables.items known)))

  summary_models-IsKnown :
      All (λ x. IsKnown x.embedding_model) tables.summaries
      → All IsKnown (summary_models service tables query tenant_id)
  unfolding summary_models
  summary_models-IsKnown known = service.sql.distinct-All _ _ (
      All-of_map _ _ _ (
        All-map _ (λ x p. p.0)
          (All-filter _ (λ x. text_eq x.tenant_id tenant_id) tables.summaries known)))

  score_all-All :
      (P : CandidateRow F Time Metadata → Type 0) (half_life_days : F) (i : ℕ)
      (cs : List (CandidateRow F Time Metadata))
      → All P cs
      → All
          (λ r. P r.candidate)
          (score_all service.math service.seconds service.clock half_life_days i cs)
  unfolding score_all
  score_all-All P h i [] a = tt
  score_all-All P h i (c ∷ cs) a = (a.0, score_all-All P h _ cs a.1)

  ranked-All :
      (P : CandidateRow F Time Metadata → Type 0) (top_k : ℤ)
      (cs : List (CandidateRow F Time Metadata))
      → All P cs
      → All (λ r. P r.candidate) (ranked service tables query tenant_id top_k cs)
  unfolding ranked rerank
  ranked-All P top_k [] a = tt
  ranked-All P top_k (c ∷ cs) a =
      let scored =
        score_all service.math service.seconds service.clock service.half_life_days 0 (c ∷ cs) in
      All-slice_to (λ r. P r.candidate) top_k (sort_scored service.math scored)
        (All-sort_scored service.math (λ r. P r.candidate) scored
          (score_all-All P service.half_life_days 0 (c ∷ cs) a))

  ranked-IsAtMost :
      (top_k : ℤ) (cs : List (CandidateRow F Time Metadata))
      → IsAtMost top_k (length (ranked service tables query tenant_id top_k cs))
  unfolding ranked rerank
  ranked-IsAtMost (pos k) [] = omega arith
  ranked-IsAtMost (pos k) (c ∷ cs) = length-take_le k _
  ranked-IsAtMost (negsuc k) cs = tt

  -- Where the embedder has a vector for the query in every model of the tables, a search answers,
  -- each result is an uncompressed item of the tenant and of a type that was asked for, or a
  -- summary of the tenant, its similarity comes from the vector that its own embedding model gives
  -- the query, and there are at most `top_k` results where that is not negative.
  pub search-IsFound :
      (top_k : ℤ) (memory_types : Option (List Text)) (s : Db × World)
      → ((model : Text) (s : Db × World)
          → IsKnown model
          → IsReady s
          → ((embed service.embedder query model s).0 ≡ ok (oracle model))
            × IsReady (embed service.embedder query model s).1)
      → All (λ i. IsKnown i.embedding_model) tables.items
      → All (λ x. IsKnown x.embedding_model) tables.summaries
      → IsReady s
      → (results : List (ScoredCandidate F Time Metadata)) × ((search service tables query tenant_id
            top_k memory_types s).0
          ≡ ok results)
        × All
            (λ r.
              IsFound service tables query tenant_id oracle (type_filter memory_types) r.candidate)
            results
        × IsAtMost top_k (length results)
  unfolding search
  search-IsFound top_k memory_types s embeds known known' ready =
      let types = type_filter memory_types in
      let P = IsFound service tables query tenant_id oracle types in
      let rows = item_rows service tables query tenant_id types in
      let models = item_models service tables query tenant_id in
      let (items, e, a, ready') =
        per_model-All P rows (item_rows-IsFound service tables query tenant_id oracle types) embeds
          models s (item_models-IsKnown known) ready in
      let (summaries, f, b, _) =
        per_model-All P (summary_rows service tables query tenant_id)
          (summary_rows-IsFound service tables query tenant_id oracle types) embeds
          (summary_models service tables query tenant_id) (per_model service query rows models s).1
          (summary_models-IsKnown known') ready' in
      let all = items ++ summaries in
      (
        ranked service tables query tenant_id top_k all,
        rw e (rw f refl),
        ranked-All P top_k all (All-append P items summaries a b),
        ranked-IsAtMost top_k all,
      )
