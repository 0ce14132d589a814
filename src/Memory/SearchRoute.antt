-- ===== src/Memory/SearchRoute.antt =====
-- services/memory-service/app/routes/memory.py: `search_memory`, with its cache in Redis.
pub mod Caching
pub mod Isolation
use sutram.Prelude.{
  ℕ, List, [], ◌∷◌, ◌++◌, map, length, filter, any, Bool, true, false, not, ◌&&◌, Option, none,
  some, Text, text_eq, codes, ltb, ◌==◌, ◌||◌, if◌then◌else◌, Result, ok, err, ◌+◌,
}
use sutram.Prelude.Program.{Program, pure, raise, gets, modify, continue, ◌>>=◌, ◌>>◌}
use sutram.Prelude.Slices.{ℤ}
use sutram.Models.{Uuid}
use sutram.Events.{Event, memory_written, memory_searched}
use sutram.Middleware.InternalAuth.{InternalAuthError, verify_internal_token}
use sutram.Embedding.{EmbedError}
use sutram.Memory.Embedder.{embed}
use sutram.Memory.Tables.{MemoryItem, Tables}
use sutram.Memory.Reranker.{ScoredCandidate}
use sutram.Memory.Searcher.{Searcher, search}
use sutram.Memory.QueryCache.{Scan, query_prefix, invalidate_query_cache}
use sutram.Memory.Schemas.{
  embedded, RouteError, not_found, embedding, endless, MemoryItemCreate, MemorySearchRequest,
  MemorySearchResult, MemorySearchResponse, State, Service,
}
use sutram.Memory.Routes.{Route, publish}

-- `sorted(types)`, and `",".join(types)`.
unfoldable pub text_lt : Text → Text → Bool
text_lt [] [] = false
text_lt [] (b ∷ t) = true
text_lt (a ∷ s) [] = false
text_lt (a ∷ s) (b ∷ t) = ltb a b || ((a == b) && text_lt s t)

unfoldable pub insert_text : Text → List Text → List Text
insert_text t [] = t ∷ []
insert_text t (u ∷ ts) = let rest = insert_text t ts in if text_lt u t then u ∷ rest else t ∷ u ∷ ts

unfoldable pub sort_texts : List Text → List Text
unfolding insert_text
sort_texts [] = []
sort_texts (t ∷ ts) = insert_text t (sort_texts ts)

unfoldable pub join_commas : List Text → Text
join_commas [] = []
join_commas (t ∷ []) = t
join_commas (t ∷ u ∷ ts) = t ++ (codes "," ++ join_commas (u ∷ ts))

unfoldable pub type_strs : Option (List Text) → List Text
unfolding sort_texts
type_strs none = codes "all" ∷ []
type_strs (some []) = codes "all" ∷ []
type_strs (some (t ∷ ts)) = sort_texts (t ∷ ts)

unfoldable pub memory_types_of : Option (List Text) → Option (List Text)
memory_types_of none = none
memory_types_of (some []) = none
memory_types_of (some (t ∷ ts)) = some (t ∷ ts)

module _ (digest : Text → Text) where
  unfoldable pub query_key : Uuid → Text → Option (List Text) → Text
  unfolding type_strs join_commas
  query_key tenant_id query memory_types =
      query_prefix tenant_id
      ++ digest (query ++ (codes "|" ++ join_commas (type_strs memory_types)))

module _ {Vector Time Metadata : Type 0} where
  first_row : List (MemoryItem Vector Time Metadata) → Option (MemoryItem Vector Time Metadata)
  first_row [] = none
  first_row (item ∷ items) = some item

  -- `rows_by_id.get(id)`, where the dict holds the rows with an id among `ids`.
  unfoldable pub row_by_id :
      Text → List (MemoryItem Vector Time Metadata) → Option (MemoryItem Vector Time Metadata)
  unfolding first_row
  row_by_id id items = first_row (filter (λ item. text_eq item.id id) items)

module _ {Db World Vector Failure F Time Metadata : Type 0}
    (service : Service Db World Vector Failure F Time Metadata) where
  -- The loop over the candidates: the rows that the query by id found.
  to_results :
      List (MemoryItem Vector Time Metadata)
      → List (ScoredCandidate F Time Metadata)
      → List (MemorySearchResult F Vector Time Metadata)
  to_results items [] = []
  to_results items (c ∷ cs) = to_result c (row_by_id c.candidate.id items) (to_results items cs)
    where
      to_result :
          ScoredCandidate F Time Metadata
          → Option (MemoryItem Vector Time Metadata)
          → List (MemorySearchResult F Vector Time Metadata)
          → List (MemorySearchResult F Vector Time Metadata)
      to_result c none rest = rest
      to_result c (some row) rest =
          record { item = row; score = service.round4 c.score; similarity = c.candidate.similarity }
          ∷ rest

  -- `add_task(_update_access_stats_bg, candidate_ids, tenant_id)`, where there are candidates.
  add_task :
      Uuid
      → List (ScoredCandidate F Time Metadata)
      → List (List Uuid × Uuid)
      → List (List Uuid × Uuid)
  add_task tenant_id [] tasks = tasks
  add_task tenant_id (c ∷ cs) tasks = (map (λ x. x.candidate.id) (c ∷ cs), tenant_id) ∷ tasks

  searched : Uuid → Text → List (MemorySearchResult F Vector Time Metadata) → Bool → ℕ → Event F
  searched tenant_id query results cache_hit latency_ms = memory_searched (record {
    tenant_id = tenant_id;
    query_hash = service.searcher.embedder.digest query;
    results_count = length results;
    latency_ms = latency_ms;
    cache_hit = cache_hit;
  })

  run_search : MemorySearchRequest → Uuid → Route service (List (ScoredCandidate F Time Metadata))
  run_search body tenant_id s =
      let (answer, (cache, world)) =
        search service.searcher s.tables body.query tenant_id body.top_k
          (memory_types_of body.memory_types) (s.cache, s.world) in
      (embedded answer, record s { cache = cache; world = world })

  store_results : Text → List (MemorySearchResult F Vector Time Metadata) → Db → Db
  store_results key results d =
      service.searcher.embedder.redis.set_ex key (service.dumps results)
        service.query_cache_ttl_seconds d

  search_hit :
      MemorySearchRequest
      → Uuid
      → Text
      → Route service (MemorySearchResponse F Vector Time Metadata)
  unfolding searched publish
  search_hit body tenant_id cached = gets (λ s. service.latency_ms s.world) >>= λ ms.
      publish service (searched tenant_id body.query (service.loads cached) true ms)
      >> pure (record { results = service.loads cached; cache_hit = true; latency_ms = ms })

  search_miss :
      MemorySearchRequest
      → Uuid
      → Text
      → Route service (MemorySearchResponse F Vector Time Metadata)
  unfolding searched publish run_search to_results add_task store_results
  search_miss body tenant_id key = run_search body tenant_id >>= λ candidates.
      gets (λ s. to_results s.tables.items candidates) >>= λ results.
      gets (λ s. service.latency_ms s.world) >>= λ ms.
      modify (λ s. record s {
        background = add_task tenant_id candidates s.background;
        cache = store_results key results s.cache;
      })
      >> publish service (searched tenant_id body.query results false ms)
      >> pure (record { results = results; cache_hit = false; latency_ms = ms })

  search_cached :
      MemorySearchRequest
      → Uuid
      → Text
      → Option Text
      → Route service (MemorySearchResponse F Vector Time Metadata)
  unfolding search_hit search_miss
  search_cached body tenant_id key none = search_miss body tenant_id key
  search_cached body tenant_id key (some cached) = search_hit body tenant_id cached

  unfoldable pub search_memory :
      MemorySearchRequest → Uuid → Route service (MemorySearchResponse F Vector Time Metadata)
  unfolding search_cached
  search_memory body tenant_id s =
      let key = query_key service.searcher.embedder.digest tenant_id body.query body.memory_types in
      search_cached body tenant_id key (service.searcher.embedder.redis.get key s.cache) s
