-- ===== src/Observability/Clients.antt =====
-- services/observability-service/app/dependencies.py, with the lifespan and the route /health of
-- app/main.py: the clients that the observability service opens once. `R` is the type of Redis clients,
-- `Q` that of session factories, and `from_url` answers nothing where it raises. That a client is
-- closed without an exception is taken for granted.
use sutram.Prelude.{Bool, Option, none, some, Text, Result}
use sutram.Prelude.Program.{Program, modify, ◌>>=◌, ◌>>◌}
use sutram.Prelude.Clients.{ClientError, initialized, opened}
use sutram.Database.Sessions.{AsyncSession}
use sutram.Database.Health.{HealthResponse, service_health, is_initialized}

pub record ObservabilityServiceUrls : Type 0 where
  pub database_url : Text
  pub redis_streams_url : Text
  pub redis_buffer_url : Text

-- The module's variables.
pub record Clients (Q R : Type 0) : Type 0 where
  pub session_factory : Option Q
  pub redis_streams : Option R
  pub redis_buffer : Option R

module _ {Q R : Type 0} where
  abbrev pub closed : Clients Q R
  closed = record { session_factory = none; redis_streams = none; redis_buffer = none }

  unfoldable pub close_redis : Program ClientError (Clients Q R) (Unit {0})
  close_redis = do
    modify (λ s. record s { redis_streams = none })
    modify (λ s. record s { redis_buffer = none })

  unfoldable pub get_redis_streams : Clients Q R → Result ClientError R
  get_redis_streams s = initialized s.redis_streams

  unfoldable pub get_redis_buffer : Clients Q R → Result ClientError R
  get_redis_buffer s = initialized s.redis_buffer

  -- A StreamConsumerGroup holds nothing but its client.
  unfoldable pub get_consumer_group : Clients Q R → Result ClientError R
  unfolding get_redis_streams
  get_consumer_group s = get_redis_streams s

  -- The route /health, with a query that the session runs.
  unfoldable pub health :
      {S D E A : Type 0}
      → AsyncSession S D
      → (R → Bool)
      → Program E S A
      → Clients Q R
      → S
      → HealthResponse × S
  health sql ping select_1 c s =
      service_health sql ping c.redis_streams (is_initialized c.session_factory) select_1 s

module _ {Q R : Type 0} (urls : ObservabilityServiceUrls) (session_factory_of : Text → Q)
    (from_url : Text → Option R) where
  -- `session_factory_of` makes the factory of an engine without a pool.
  unfoldable pub init_db : Program ClientError (Clients Q R) (Unit {0})
  init_db = modify (λ s. record s { session_factory = some (session_factory_of urls.database_url) })

  unfoldable pub init_redis : Program ClientError (Clients Q R) (Unit {0})
  init_redis = do
    streams ← opened (from_url urls.redis_streams_url)
    modify (λ s. record s { redis_streams = some streams })
    buffer ← opened (from_url urls.redis_buffer_url)
    modify (λ s. record s { redis_buffer = some buffer })

  unfoldable pub start : Program ClientError (Clients Q R) (Unit {0})
  unfolding init_db init_redis
  start = do init_db; init_redis

  -- `lifespan`, around what is done while the service runs: `consume` starts the task of the consumer
  -- on its client, and `cancel` ends it and waits for it.
  unfoldable pub lifespan :
      (R → Program ClientError (Clients Q R) (Unit {0}))
      → Program ClientError (Clients Q R) (Unit {0})
      → Program ClientError (Clients Q R) (Unit {0})
      → Program ClientError (Clients Q R) (Unit {0})
  unfolding start close_redis get_redis_streams
  lifespan consume serve cancel = do
    start
    streams ← λ s. (get_redis_streams s, s)
    consume streams
    serve
    cancel
    close_redis
