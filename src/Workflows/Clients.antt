-- ===== src/Workflows/Clients.antt =====
-- services/workflow-service/app/dependencies.py, with the lifespan and the route /health of
-- app/main.py: the clients that the workflow service opens once. `R` is the type of Redis clients,
-- `Q` that of session factories, and `from_url` answers nothing where it raises. That a client is
-- closed without an exception is taken for granted. A RedisLock and a StreamProducer hold nothing
-- but their client.
use sutram.Prelude.{
  Bool, Option, none, some, Text, Result, ok, err, ◌≡◌, refl, Option-cases, inl, inr,
}
use sutram.Prelude.Program.{Program, modify, ◌>>=◌, ◌>>◌}
use sutram.Prelude.Clients.{ClientError, runtime_error, value_error, initialized, opened}
use sutram.Database.Sessions.{AsyncSession}
use sutram.Database.Health.{HealthResponse, service_health, is_initialized}

pub record WorkflowServiceUrls : Type 0 where
  pub database_url : Text
  pub redis_streams_url : Text
  pub redis_locks_url : Text

-- The module's variables.
pub record Clients (Q R : Type 0) : Type 0 where
  pub session_factory : Option Q
  pub redis_streams : Option R
  pub redis_locks : Option R

abbrev both : {R : Type 0} → Result ClientError R → Result ClientError (R × R)
both (ok redis) = ok (redis, redis)
both (err e) = err e

module _ {Q R : Type 0} where
  abbrev pub closed : Clients Q R
  closed = record { session_factory = none; redis_streams = none; redis_locks = none }

  unfoldable pub close_redis : Program ClientError (Clients Q R) (Unit {0})
  close_redis = do
    modify (λ s. record s { redis_streams = none })
    modify (λ s. record s { redis_locks = none })

  unfoldable pub get_redis_lock : Clients Q R → Result ClientError R
  get_redis_lock s = initialized s.redis_locks

  unfoldable pub get_stream_producers : Clients Q R → Result ClientError (R × R)
  get_stream_producers s = both (initialized s.redis_streams)

  unfoldable pub get_redis_streams_for_sse : Clients Q R → Result ClientError R
  get_redis_streams_for_sse s = initialized s.redis_streams

  -- The route /health, with a query that the session runs.
  unfoldable pub health :
      {S D E A : Type 0}
      → AsyncSession S D
      → (R → Bool)
      → Program E S A
      → Clients Q R
      → S
      → HealthResponse × S
  health sql ping select_1 c s =
      service_health sql ping c.redis_streams (is_initialized c.session_factory) select_1 s

module _ {Q R : Type 0} (urls : WorkflowServiceUrls) (session_factory_of : Text → Q)
    (from_url : Text → Option R) where
  -- `session_factory_of` makes the factory of an engine without a pool.
  unfoldable pub init_db : Program ClientError (Clients Q R) (Unit {0})
  init_db = modify (λ s. record s { session_factory = some (session_factory_of urls.database_url) })

  unfoldable pub init_redis : Program ClientError (Clients Q R) (Unit {0})
  init_redis = do
    streams ← opened (from_url urls.redis_streams_url)
    modify (λ s. record s { redis_streams = some streams })
    locks ← opened (from_url urls.redis_locks_url)
    modify (λ s. record s { redis_locks = some locks })

  unfoldable pub start : Program ClientError (Clients Q R) (Unit {0})
  unfolding init_db init_redis
  start = do init_db; init_redis

  -- `lifespan`, around what is done while the service runs.
  unfoldable pub lifespan :
      Program ClientError (Clients Q R) (Unit {0}) → Program ClientError (Clients Q R) (Unit {0})
  unfolding start close_redis
  lifespan serve = do start; serve; close_redis

  -- The outcomes of a start from closed clients: all getters answer; or the URL of the streams was
  -- refused and none does; or that of the locks was, and there is no lock.
  pub data IsStarted : Result ClientError (Unit {0}) × Clients Q R → Type 0 where
    started :
        {s : Clients Q R} {streams locks : R}
        → get_stream_producers s ≡ ok (streams, streams)
        → get_redis_streams_for_sse s ≡ ok streams
        → get_redis_lock s ≡ ok locks
        → IsStarted (ok tt, s)
    no_streams :
        {s : Clients Q R}
        → get_stream_producers s ≡ err runtime_error
        → get_redis_lock s ≡ err runtime_error
        → IsStarted (err value_error, s)
    no_locks :
        {s : Clients Q R} {streams : R}
        → get_stream_producers s ≡ ok (streams, streams)
        → get_redis_lock s ≡ err runtime_error
        → IsStarted (err value_error, s)

  pub start-IsStarted : IsStarted (start closed)
  unfolding start init_db init_redis get_stream_producers get_redis_streams_for_sse get_redis_lock
  start-IsStarted = elim (Option-cases (from_url urls.redis_streams_url)) [
    | inl e ↦ rw e (no_streams refl refl)
    | inr (streams, e) ↦ elim (Option-cases (from_url urls.redis_locks_url)) [
      | inl k ↦ rw e (rw k (no_locks refl refl))
      | inr (locks, k) ↦ rw e (rw k (started refl refl refl))
    ]
  ]
