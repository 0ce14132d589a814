-- ===== src/Memory/SearchRoute/Caching.antt =====
-- services/memory-service/app/routes/memory.py: searches that are answered from the cache.
use sutram.Prelude.{
  ◌≡◌, refl, true, some, Text, text_eq_refl, Option-cases, Result-cases, ok, ok_inj, ap, ◌∙◌, inl,
  inr, arith,
}
use sutram.Prelude.Slices.{ℤ}
use sutram.Models.{Uuid}
use sutram.Memory.Searcher.{search}
use sutram.Memory.Schemas.{Service, State, MemorySearchRequest, MemorySearchResponse}
use sutram.Memory.SearchRoute.{
  query_key, memory_types_of, search_memory, search_cached, search_hit, search_miss, run_search,
  store_results, to_results,
}

module _ {Db World Vector Failure F Time Metadata : Type 0}
    (service : Service Db World Vector Failure F Time Metadata) where
  abbrev pub key_of : MemorySearchRequest → Uuid → Text
  key_of body tenant_id =
      query_key service.searcher.embedder.digest tenant_id body.query body.memory_types

  -- A search that answers leaves its results in the cache.
  search_memory-cached :
      (body : MemorySearchRequest) (tenant_id : Uuid) (s : State Db World F Vector Time Metadata)
      (response : MemorySearchResponse F Vector Time Metadata)
      → service.loads (service.dumps response.results) ≡ response.results
      → (search_memory service body tenant_id s).0 ≡ ok response
      → (cached : Text) × (service.searcher.embedder.redis.get
            (key_of body tenant_id)
            (search_memory service body tenant_id s).1.cache
          ≡ some cached)
        × (service.loads cached ≡ response.results)
  unfolding search_memory search_cached search_hit search_miss run_search store_results
  search_memory-cached body tenant_id s response rt =
      elim (Option-cases (service.searcher.embedder.redis.get (key_of body tenant_id) s.cache)) [
        | inr (cached, e) ↦ rw e (λ h. (cached, e, ap (λ x. x.results) (ok_inj _ response h)))
        | inl e ↦
            rw e
              (elim (Result-cases
                (search service.searcher s.tables body.query tenant_id body.top_k
                  (memory_types_of body.memory_types) (s.cache, s.world)).0) [
                    | inl (cs, f) ↦ rw f (λ h. (
                      service.dumps (to_results service s.tables.items cs),
                      ground (
                        arith,
                        service.searcher.embedder.redis.get-set_ex (key_of body tenant_id)
                            (key_of body tenant_id)
                            (service.dumps (to_results service s.tables.items cs))
                            service.query_cache_ttl_seconds
                            (search service.searcher s.tables body.query tenant_id body.top_k
                              (memory_types_of body.memory_types) (s.cache, s.world)).1.0,
                        text_eq_refl (key_of body tenant_id),
                      ),
                      ap (λ x. service.loads (service.dumps x.results)) (ok_inj _ response h) ∙ rt,
                    ))
                    | inr (x, f) ↦ rw f (λ h. cc h)
                  ])
      ]

  search_memory-hit :
      (body : MemorySearchRequest) (tenant_id : Uuid) (s : State Db World F Vector Time Metadata)
      (cached : Text)
      → service.searcher.embedder.redis.get (key_of body tenant_id) s.cache ≡ some cached
      → (search_memory service body tenant_id s).0
        ≡ ok (record {
          results = service.loads cached;
          cache_hit = true;
          latency_ms = service.latency_ms s.world;
        })
  unfolding search_memory search_cached search_hit
  search_memory-hit body tenant_id s cached e = rw e refl

  -- After a search that answered, the same query and types are answered from the cache with the
  -- same results, whatever `top_k` the second request asks for, given that JSON gives these results back.
  pub search_memory-again :
      (body : MemorySearchRequest) (tenant_id : Uuid) (s : State Db World F Vector Time Metadata)
      (response : MemorySearchResponse F Vector Time Metadata) (top_k : ℤ)
      → service.loads (service.dumps response.results) ≡ response.results
      → (search_memory service body tenant_id s).0 ≡ ok response
      → (search_memory service
          (record body { top_k = top_k })
          tenant_id
          (search_memory service body tenant_id s).1).0
        ≡ ok (record {
          results = response.results;
          cache_hit = true;
          latency_ms = service.latency_ms (search_memory service body tenant_id s).1.world;
        })
  search_memory-again body tenant_id s response top_k rt h =
      let (cached, e, same) = search_memory-cached body tenant_id s response rt h in
      search_memory-hit (record body { top_k = top_k }) tenant_id
        (search_memory service body tenant_id s).1 cached e
      ∙ ap
          (λ r. ok (record {
            results = r;
            cache_hit = true;
            latency_ms = service.latency_ms (search_memory service body tenant_id s).1.world;
          }))
          same
