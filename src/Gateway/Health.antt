-- ===== src/Gateway/Health.antt =====
-- services/api-gateway/app/routes/health.py: a PING to each Redis of the gateway. `ping` says whether
-- a PING returns.
use sutram.Prelude.{Bool, true, false, codes, ◌++◌, if◌then◌else◌, Result, ok, err, ◌≡◌, ◌↔◌}
use sutram.Prelude.Clients.{ClientError}
use sutram.Database.Health.{HealthResponse, report, error_if, report-error_if}
use sutram.Gateway.Clients.{Clients, RateLimiterClient, get_rate_limiter, get_idempotency_store}

module _ {R : Type 0} (ping : R → Bool) where
  unfoldable pub limiter_down : Result ClientError (RateLimiterClient R) → Bool
  limiter_down (ok limiter) = if ping limiter.redis then false else true
  limiter_down (err e) = true

  unfoldable pub store_down : Result ClientError R → Bool
  store_down (ok redis) = if ping redis then false else true
  store_down (err e) = true

  unfoldable pub health : {H : Type 0} → Clients H R → HealthResponse
  unfolding limiter_down store_down get_rate_limiter get_idempotency_store report error_if
  health s = report (
      error_if (codes "redis_rate_limit") (limiter_down (get_rate_limiter s))
      ++ error_if (codes "redis_idempotency") (store_down (get_idempotency_store s)))

  -- /health answers 200 exactly if the limiter and the store are there and the Redis of each answers a
  -- PING.
  pub health_iff :
      {H : Type 0} (s : Clients H R)
      → (health s).status_code ≡ 200
        ↔ (limiter_down (get_rate_limiter s) ≡ false)
          × (store_down (get_idempotency_store s) ≡ false)
  unfolding health
  health_iff s =
      report-error_if (codes "redis_rate_limit") (codes "redis_idempotency")
        (limiter_down (get_rate_limiter s)) (store_down (get_idempotency_store s))
