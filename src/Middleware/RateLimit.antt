-- ===== src/Middleware/RateLimit.antt =====
-- packages/core/sutram_core/middleware/rate_limit.py: the fixed-window limiter. Times are whole
-- seconds. A counter's TTL of two windows is longer than the window that it counts.
pub mod Windows
use sutram.Prelude.{ℕ, ◌/◌, ◌++◌, Text, codes, str_int, ltb, ◌==◌, Result, ok, err, if◌then◌else◌}
use sutram.Redis.{Redis}

pub record RateLimitExceeded : Type 0 where
  pub tenant_id : Text
  pub limit : ℕ

abbrev pub window_seconds : ℕ
window_seconds = 60

abbrev pub ttl_seconds : ℕ
ttl_seconds = 120

abbrev pub rate_key : Text → ℕ → Text
rate_key tenant_id window = codes "rate:" ++ (tenant_id ++ (codes ":" ++ str_int window))

module _ {Db : Type 0} (redis : Redis Db) where
  -- _INCR_WITH_TTL_SCRIPT, which Redis runs atomically.
  incr_with_ttl : Text → ℕ → Db → ℕ × Db
  incr_with_ttl key ttl d =
      let (count, d') = redis.incr key d in
      (count, if count == 1 then redis.expire key ttl d' else d')

  unfoldable pub check : ℕ → Text → ℕ → Db → Result RateLimitExceeded (Unit {0}) × Db
  unfolding incr_with_ttl
  check requests_per_minute tenant_id now d =
      let window = now / window_seconds in
      let (count, d') = incr_with_ttl (rate_key tenant_id window) ttl_seconds d in
      (
        if ltb requests_per_minute count
            then err (record { tenant_id = tenant_id; limit = requests_per_minute })
            else ok tt,
        d',
      )
