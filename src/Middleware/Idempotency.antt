-- ===== src/Middleware/Idempotency.antt =====
-- packages/core/sutram_core/middleware/idempotency.py: requests deduplicated by a key in Redis.
use sutram.Prelude.{ℕ, Bool, not, Text, codes, ◌++◌}
use sutram.Redis.{Redis}

abbrev pub redis_key : Text → Text
redis_key key = codes "idempotency:" ++ key

module _ {Db : Type 0} (redis : Redis Db) where
  -- Whether the request is a duplicate; the key is stored if it is not.
  unfoldable pub check_and_store : Text → ℕ → Db → Bool × Db
  check_and_store key ttl d =
      let (stored, d') = redis.set_nx (redis_key key) (codes "1") ttl d in (not stored, d')

  unfoldable pub delete : Text → Db → Db
  delete key d = redis.delete (redis_key key) d
