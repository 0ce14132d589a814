-- ===== src/Gateway/Clients.antt =====
-- services/api-gateway/app/dependencies.py and lifespan of app/main.py: the clients that the gateway
-- opens once. `H` is the type of HTTP clients, `R` that of Redis clients, and `from_url` answers
-- nothing where it raises. That a client is closed without an exception is taken for granted.
pub mod Phases
use sutram.Prelude.Clients.{ClientError, runtime_error, initialized, opened}
use sutram.Prelude.{ℕ, Option, none, some, Text, Result, ok, err, List, [], ◌∷◌}
use sutram.Prelude.Program.{Program, pure, raise, gets, modify, continue, ◌>>=◌, ◌>>◌}

pub record RateLimiterClient (R : Type 0) : Type 0 where
  pub redis : R
  pub requests_per_minute : ℕ

-- The module's variables.
pub record Clients (H R : Type 0) : Type 0 where
  pub http_client : Option H
  pub redis_rate_limit : Option R
  pub redis_idempotency : Option R
  pub rate_limiter : Option (RateLimiterClient R)
  pub idempotency_store : Option R

pub record ClientSettings : Type 0 where
  pub redis_rate_limit_url : Text
  pub redis_idempotency_url : Text
  pub requests_per_minute : ℕ

module _ {H R : Type 0} where
  abbrev pub closed : Clients H R
  closed = record {
    http_client = none;
    redis_rate_limit = none;
    redis_idempotency = none;
    rate_limiter = none;
    idempotency_store = none;
  }

  unfoldable pub get_http_client : Clients H R → Result ClientError H
  get_http_client s = initialized s.http_client

  unfoldable pub get_rate_limiter : Clients H R → Result ClientError (RateLimiterClient R)
  get_rate_limiter s = initialized s.rate_limiter

  unfoldable pub get_idempotency_store : Clients H R → Result ClientError R
  get_idempotency_store s = initialized s.idempotency_store

  abbrev not_twice : Option H → Program ClientError (Clients H R) (Unit {0})
  not_twice none = pure tt
  not_twice (some http) = raise runtime_error

  unfoldable pub init_clients :
      ClientSettings → H → (Text → Option R) → Program ClientError (Clients H R) (Unit {0})
  init_clients settings http from_url = do
    before ← gets (λ s. s.http_client)
    not_twice before
    modify (λ s. record s { http_client = some http })
    rate ← opened (from_url settings.redis_rate_limit_url)
    modify (λ s. record s { redis_rate_limit = some rate })
    keys ← opened (from_url settings.redis_idempotency_url)
    modify (λ s. record s { redis_idempotency = some keys })
    modify (λ s. record s {
      rate_limiter =
          some (record { redis = rate; requests_per_minute = settings.requests_per_minute });
    })
    modify (λ s. record s { idempotency_store = some keys })

  unfoldable pub close_clients : Program ClientError (Clients H R) (Unit {0})
  close_clients = do
    modify (λ s. record s { http_client = none })
    modify (λ s. record s { redis_rate_limit = none })
    modify (λ s. record s { redis_idempotency = none })
    modify (λ s. record s { rate_limiter = none })
    modify (λ s. record s { idempotency_store = none })

  -- `lifespan`, around what is done with the clients open.
  unfoldable pub lifespan :
      ClientSettings
      → H
      → (Text → Option R)
      → Program ClientError (Clients H R) (Unit {0})
      → Program ClientError (Clients H R) (Unit {0})
  unfolding init_clients close_clients
  lifespan settings http from_url serve = do
    init_clients settings http from_url
    serve
    close_clients
