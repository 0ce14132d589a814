-- ===== src/Locking.antt =====
-- packages/core/sutram_core/locking/redis_lock.py: the commands of the distributed lock.
pub mod Workers
use sutram.Prelude.{ℕ, Bool, true, false, Option, none, some, Text, text_eq, if◌then◌else◌}
use sutram.Redis.{Redis}

module _ {Db : Type 0} (redis : Redis Db) where
  -- `acquire` up to its `yield`: whether the lock was acquired (if not, it raises
  -- LockAcquisitionError).
  unfoldable pub try_acquire : Text → Text → ℕ → Db → Bool × Db
  try_acquire key token ttl d = redis.set_nx key token ttl d

  -- _RELEASE_SCRIPT, which Redis runs atomically: the key is deleted only if it holds the token.
  release_if : Text → Text → Option Text → Db → Db
  release_if key token none d = d
  release_if key token (some current) d = if text_eq current token then redis.delete key d else d

  unfoldable pub release : Text → Text → Db → Db
  unfolding release_if
  release key token d = release_if key token (redis.get key d) d

  -- One round of `_renew_heartbeat` after its sleep: whether the loop goes on.
  renew_if : Text → Text → ℕ → Option Text → Db → Bool × Db
  renew_if key token ttl none d = (false, d)
  renew_if key token ttl (some current) d =
      if text_eq current token then (true, redis.expire key ttl d) else (false, d)

  unfoldable pub renew : Text → Text → ℕ → Db → Bool × Db
  unfolding renew_if
  renew key token ttl d = renew_if key token ttl (redis.get key d) d
