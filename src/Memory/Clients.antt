-- ===== src/Memory/Clients.antt =====
-- services/memory-service/app/dependencies.py with the lifespan and the route /health of app/main.py: the clients that the
-- memory service opens once. `R` is the type of Redis clients, `Q` that of session factories, and
-- `from_url` answers nothing where it raises. That a client is closed without an exception is taken
-- for granted. The variable of the OpenAI embedder is a provider by name and function.
pub mod Lifecycle
use sutram.Prelude.{ℕ, Bool, true, false, Option, none, some, Text, Result, ok, err, List, []}
use sutram.Prelude.Program.{Program, pure, raise, gets, modify, ◌>>=◌, ◌>>◌}
use sutram.Prelude.Clients.{ClientError, runtime_error, initialized, opened}
use sutram.Database.Sessions.{AsyncSession}
use sutram.Database.Health.{HealthResponse, service_health, is_initialized}
use sutram.Embedding.{Provider, Registry, register}

pub record MemoryServiceSettings (F : Type 0) : Type 0 where
  pub database_url : Text
  pub redis_streams_url : Text
  pub redis_cache_url : Text
  pub openai_api_key : Text
  pub embedding_cache_ttl_seconds : ℕ
  pub ann_candidate_limit : ℕ
  pub recency_half_life_days : F

-- What an Embedder and a Searcher are built with.
pub record EmbedderClient (R World Vector Failure : Type 0) : Type 0 where
  pub registry : Registry World Vector Failure
  pub redis : R
  pub cache_ttl_seconds : ℕ

pub record SearcherClient (F R World Vector Failure : Type 0) : Type 0 where
  pub embedder : EmbedderClient R World Vector Failure
  pub candidate_limit : ℕ
  pub half_life_days : F

-- The module's variables.
pub record Clients (Q R World Vector Failure : Type 0) : Type 0 where
  pub session_factory : Option Q
  pub redis_streams : Option R
  pub redis_cache : Option R
  pub registry : Option (Registry World Vector Failure)
  pub openai_embedder : Option (Provider World Vector Failure)
  pub embedder : Option (EmbedderClient R World Vector Failure)

module _ {Q R World Vector Failure : Type 0} where
  abbrev pub closed : Clients Q R World Vector Failure
  closed = record {
    session_factory = none;
    redis_streams = none;
    redis_cache = none;
    registry = none;
    openai_embedder = none;
    embedder = none;
  }

  unfoldable pub close_redis : Program ClientError (Clients Q R World Vector Failure) (Unit {0})
  close_redis = do
    modify (λ s. record s { redis_streams = none })
    modify (λ s. record s { redis_cache = none })

  unfoldable pub close_embedding : Program ClientError (Clients Q R World Vector Failure) (Unit {0})
  close_embedding = modify (λ s. record s { openai_embedder = none })

  unfoldable pub stop : Program ClientError (Clients Q R World Vector Failure) (Unit {0})
  unfolding close_redis close_embedding
  stop = do close_embedding; close_redis

  unfoldable pub get_embedder :
      Clients Q R World Vector Failure → Result ClientError (EmbedderClient R World Vector Failure)
  get_embedder s = initialized s.embedder

  unfoldable pub get_stream_producer : Clients Q R World Vector Failure → Result ClientError R
  get_stream_producer s = initialized s.redis_streams

  unfoldable pub get_redis_cache : Clients Q R World Vector Failure → Result ClientError R
  get_redis_cache s = initialized s.redis_cache

  -- The route /health, with a query that the session runs.
  unfoldable pub health :
      {S D E A : Type 0}
      → AsyncSession S D
      → (R → Bool)
      → Program E S A
      → Clients Q R World Vector Failure
      → S
      → HealthResponse × S
  health sql ping select_1 c s =
      service_health sql ping c.redis_streams (is_initialized c.session_factory) select_1 s

module _ {F Q R World Vector Failure : Type 0} (settings : MemoryServiceSettings F)
    (session_factory_of : Text → Q) (from_url : Text → Option R)
    (open_ai : Text → Provider World Vector Failure) where
  -- `session_factory_of` makes the factory of an engine without a pool.
  unfoldable pub init_db : Program ClientError (Clients Q R World Vector Failure) (Unit {0})
  init_db =
      modify (λ s. record s { session_factory = some (session_factory_of settings.database_url) })

  unfoldable pub init_redis : Program ClientError (Clients Q R World Vector Failure) (Unit {0})
  init_redis = do
    streams ← opened (from_url settings.redis_streams_url)
    modify (λ s. record s { redis_streams = some streams })
    cache ← opened (from_url settings.redis_cache_url)
    modify (λ s. record s { redis_cache = some cache })

  abbrev with_cache : Option R → Program ClientError (Clients Q R World Vector Failure) (Unit {0})
  with_cache none = raise runtime_error
  with_cache (some cache) =
      let provider = open_ai settings.openai_api_key in
      do
        modify (λ s. record s { registry = some [] })
        modify (λ s. record s { openai_embedder = some provider })
        modify (λ s. record s { registry = some (register provider []) })
        modify (λ s. record s {
          embedder = some (record {
            registry = register provider [];
            redis = cache;
            cache_ttl_seconds = settings.embedding_cache_ttl_seconds;
          });
        })

  unfoldable pub init_embedding : Program ClientError (Clients Q R World Vector Failure) (Unit {0})
  init_embedding = do cache ← gets (λ s. s.redis_cache); with_cache cache

  abbrev searcher_of :
      Result ClientError (EmbedderClient R World Vector Failure)
      → Result ClientError (SearcherClient F R World Vector Failure)
  searcher_of (err e) = err e
  searcher_of (ok embedder) = ok (record {
    embedder = embedder;
    candidate_limit = settings.ann_candidate_limit;
    half_life_days = settings.recency_half_life_days;
  })

  unfoldable pub get_searcher :
      Clients Q R World Vector Failure
      → Result ClientError (SearcherClient F R World Vector Failure)
  unfolding get_embedder
  get_searcher s = searcher_of (get_embedder s)

  unfoldable pub start : Program ClientError (Clients Q R World Vector Failure) (Unit {0})
  unfolding init_db init_redis init_embedding
  start = do init_db; init_redis; init_embedding

  -- `lifespan`, around what is done while the service runs.
  unfoldable pub lifespan :
      Program ClientError (Clients Q R World Vector Failure) (Unit {0})
      → Program ClientError (Clients Q R World Vector Failure) (Unit {0})
  unfolding start stop
  lifespan serve = do start; serve; stop
