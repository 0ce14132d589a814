-- ===== src/Memory/SearchRoute/Isolation.antt =====
-- services/memory-service/app/routes/memory.py: whose memories a search answers with.
use sutram.Prelude.{
  List, [], ◌∷◌, map, false, ◌≡◌, refl, sym, ap, ◌∙◌, none, some, Text, text_eq, text_eq_iff, ok,
  All, Bool-cases, Option-cases, inl, inr, arith,
}
use sutram.Prelude.Strings.{IsAbsent, IsDistinct}
use sutram.Models.{Uuid}
use sutram.Memory.Embedder.{embed}
use sutram.Memory.Tables.{MemoryItem, Tables}
use sutram.Memory.Reranker.{ScoredCandidate, CandidateRow}
use sutram.Memory.Searcher.{type_filter, item_candidate, summary_candidate}
use sutram.Memory.Searcher.Sources.{IsItemOf, IsSummaryOf, IsFound}
use sutram.Memory.Searcher.Answers.{search-IsFound}
use sutram.Memory.Compressor.Marks.{distinct_unique, absent-Memᴰ}
use sutram.Memory.Schemas.{
  Service, State, MemorySearchRequest, MemorySearchResult, MemorySearchResponse,
}
use sutram.Memory.SearchRoute.{
  query_key, memory_types_of, row_by_id, first_row, to_results, search_memory, search_cached,
  search_miss, run_search,
}
use mathlib.Core.List.{Memᴰ}
use mathlib.Core.Path.{subst}

All-at : {A : Type 0} (P : A → Type 0) (x : A) (xs : List A) → All P xs → Memᴰ x xs → P x
All-at P x [] a m = elim m [ ]
All-at P x (y ∷ xs) a (Memᴰ.head e) = subst P (sym e) a.0
All-at P x (y ∷ xs) a (Memᴰ.tail m) = All-at P x xs a.1 m

module _ {Vector Time Metadata : Type 0} where
  row_by_id-some :
      (id : Text) (items : List (MemoryItem Vector Time Metadata))
      (row : MemoryItem Vector Time Metadata)
      → row_by_id id items ≡ some row
      → Memᴰ row items × (row.id ≡ id)
  unfolding row_by_id first_row
  row_by_id-some id [] row = λ h. cc h
  row_by_id-some id (x ∷ xs) row = elim (Bool-cases (text_eq x.id id)) [
    | inl e ↦ rw e (λ h.
        let same : x ≡ row = cc h in
        (Memᴰ.head (sym same), ap (λ i. i.id) (sym same) ∙ (text_eq_iff x.id id).0 e))
    | inr e ↦ rw e (λ h. let (m, s) = row_by_id-some id xs row h in (Memᴰ.tail m, s))
  ]

module _ {F Vector Time Metadata : Type 0} (tables : Tables Vector Time Metadata)
    (tenant_id : Uuid) where
  -- A result is an uncompressed item of the tenant.
  abbrev pub IsOwn : MemorySearchResult F Vector Time Metadata → Type 0
  IsOwn r = Memᴰ r.item tables.items × (r.item.tenant_id ≡ tenant_id) × (r.item.compressed ≡ false)

module _ {Db World Vector Failure F Time Metadata : Type 0}
    (service : Service Db World Vector Failure F Time Metadata)
    (tables : Tables Vector Time Metadata) (query : Text) (tenant_id : Uuid)
    (oracle : Text → Vector) where
  row-IsOwn :
      (types : List Text) (c : CandidateRow F Time Metadata) (row : MemoryItem Vector Time Metadata)
      → IsDistinct (map (λ i. i.id) tables.items)
      → All (λ x. IsAbsent x.id (map (λ i. i.id) tables.items)) tables.summaries
      → IsFound service.searcher tables query tenant_id oracle types c
      → row_by_id c.id tables.items ≡ some row
      → Memᴰ row tables.items × (row.tenant_id ≡ tenant_id) × (row.compressed ≡ false)
  unfolding IsItemOf IsSummaryOf item_candidate summary_candidate
  row-IsOwn types c row d absent (inl (item, m, tenant, active, wanted, e)) h =
      let (mr, id) = row_by_id-some c.id tables.items row h in
      let same_id : row.id ≡ item.id = id ∙ ap (λ x. x.id) e in
      let same = distinct_unique tables.items row item d mr m same_id in
      (mr, ap (λ i. i.tenant_id) same ∙ tenant, ap (λ i. i.compressed) same ∙ active)
  row-IsOwn types c row d absent (inr (summary, m, tenant, e)) h =
      let (mr, id) = row_by_id-some c.id tables.items row h in
      let same_id : row.id ≡ summary.id = id ∙ ap (λ x. x.id) e in
      let apart = All-at _ summary tables.summaries absent m in
      ground (
        arith,
        absent-Memᴰ summary.id tables.items row apart mr,
        text_eq_iff summary.id row.id,
        same_id,
      )

  to_results-IsOwn :
      (types : List Text) (cs : List (ScoredCandidate F Time Metadata))
      → IsDistinct (map (λ i. i.id) tables.items)
      → All (λ x. IsAbsent x.id (map (λ i. i.id) tables.items)) tables.summaries
      → All (λ c. IsFound service.searcher tables query tenant_id oracle types c.candidate) cs
      → All (IsOwn tables tenant_id) (to_results service tables.items cs)
  unfolding to_results
  to_results-IsOwn types [] d absent a = tt
  to_results-IsOwn types (c ∷ cs) d absent a =
      let rest = to_results-IsOwn types cs d absent a.1 in
      elim (Option-cases (row_by_id c.candidate.id tables.items)) [
        | inl e ↦ rw e rest
        | inr (row, e) ↦ rw e (row-IsOwn types c.candidate row d absent a.0 e, rest)
      ]

module _ {Db World Vector Failure F Time Metadata : Type 0}
    (service : Service Db World Vector Failure F Time Metadata) (oracle : Text → Vector)
    (IsKnown : Text → Type 0) (IsReady : Db × World → Type 0) where
  -- Where ids are distinct, also between items and summaries, the embedder has a vector for the
  -- query in every model of the tables, and nothing is cached for the search, a search answers,
  -- and every result is an uncompressed item of the tenant: none of another tenant, and no summary.
  pub search_memory-IsOwn :
      (body : MemorySearchRequest) (tenant_id : Uuid) (s : State Db World F Vector Time Metadata)
      → ((model : Text) (t : Db × World)
          → IsKnown model
          → IsReady t
          → ((embed service.searcher.embedder body.query model t).0 ≡ ok (oracle model))
            × IsReady (embed service.searcher.embedder body.query model t).1)
      → All (λ i. IsKnown i.embedding_model) s.tables.items
      → All (λ x. IsKnown x.embedding_model) s.tables.summaries
      → IsReady (s.cache, s.world)
      → IsDistinct (map (λ i. i.id) s.tables.items)
      → All (λ x. IsAbsent x.id (map (λ i. i.id) s.tables.items)) s.tables.summaries
      → service.searcher.embedder.redis.get
          (query_key service.searcher.embedder.digest tenant_id body.query body.memory_types)
          s.cache
        ≡ none
      → (response : MemorySearchResponse F Vector Time Metadata) × ((search_memory service body
            tenant_id s).0
          ≡ ok response)
        × All (IsOwn s.tables tenant_id) response.results
  unfolding search_memory search_cached search_miss run_search
  search_memory-IsOwn body tenant_id s embeds items summaries ready d absent cold =
      let types = memory_types_of body.memory_types in
      let (cs, e, found, few) =
        search-IsFound service.searcher s.tables body.query tenant_id oracle IsKnown IsReady
          body.top_k types (s.cache, s.world) embeds items summaries ready in
      let own =
        to_results-IsOwn service s.tables body.query tenant_id oracle (type_filter types) cs d
          absent found in
      rw cold (rw e (_, refl, own))
