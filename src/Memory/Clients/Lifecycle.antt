-- ===== src/Memory/Clients/Lifecycle.antt =====
-- app/dependencies.py: what the clients are after the start of the service and after its end.
use sutram.Prelude.{Option, Text, Result, ok, err, [], ◌∷◌, ◌≡◌, refl, Option-cases, inl, inr, none}
use sutram.Prelude.Clients.{ClientError, runtime_error, value_error}
use sutram.Embedding.{Provider, register}
use sutram.Memory.Clients.{
  MemoryServiceSettings, Clients, closed, start, stop, get_embedder, get_stream_producer,
  get_redis_cache, get_searcher, init_db, init_redis, init_embedding, close_redis, close_embedding,
}

module _ {F Q R World Vector Failure : Type 0} (settings : MemoryServiceSettings F)
    (session_factory_of : Text → Q) (from_url : Text → Option R)
    (open_ai : Text → Provider World Vector Failure) where
  -- The outcomes of a start: all getters answer, with the embedder on the cache's client and with
  -- OpenAI as its one provider; or a Redis URL was refused and neither cache nor embedder is there.
  pub data IsReady : Result ClientError (Unit {0}) × Clients Q R World Vector Failure → Type 0 where
    ready :
        {s : Clients Q R World Vector Failure} {streams cache : R}
        → get_stream_producer s ≡ ok streams
        → get_redis_cache s ≡ ok cache
        → get_embedder s
          ≡ ok (record {
            registry = open_ai settings.openai_api_key ∷ [];
            redis = cache;
            cache_ttl_seconds = settings.embedding_cache_ttl_seconds;
          })
        → get_searcher settings session_factory_of from_url open_ai s
          ≡ ok (record {
            embedder = record {
              registry = open_ai settings.openai_api_key ∷ [];
              redis = cache;
              cache_ttl_seconds = settings.embedding_cache_ttl_seconds;
            };
            candidate_limit = settings.ann_candidate_limit;
            half_life_days = settings.recency_half_life_days;
          })
        → IsReady (ok tt, s)
    refused :
        {s : Clients Q R World Vector Failure}
        → get_redis_cache s ≡ err runtime_error
        → get_embedder s ≡ err runtime_error
        → IsReady (err value_error, s)

  -- A start from closed clients has one of these outcomes.
  pub start-IsReady : IsReady (start settings session_factory_of from_url open_ai closed)
  unfolding start init_db init_redis init_embedding get_embedder get_stream_producer get_redis_cache
      get_searcher register
  start-IsReady = elim (Option-cases (from_url settings.redis_streams_url)) [
    | inl e ↦ rw e (refused refl refl)
    | inr (streams, e) ↦ elim (Option-cases (from_url settings.redis_cache_url)) [
      | inl k ↦ rw e (rw k (refused refl refl))
      | inr (cache, k) ↦ rw e (rw k (ready refl refl refl refl))
    ]
  ]

  -- After the end of the service no Redis client is handed out any more, while the embedder still is,
  -- although its provider has been closed.
  pub stop-get_embedder :
      (s : Clients Q R World Vector Failure)
      → (get_stream_producer (stop s).1 ≡ err runtime_error)
        × (get_redis_cache (stop s).1 ≡ err runtime_error)
        × ((stop s).1.openai_embedder ≡ none)
        × (get_embedder (stop s).1 ≡ get_embedder s)
  unfolding stop close_redis close_embedding get_embedder get_stream_producer get_redis_cache
  stop-get_embedder s = (refl, refl, refl, refl)
