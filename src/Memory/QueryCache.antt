-- ===== src/Memory/QueryCache.antt =====
-- services/memory-service/app/routes/memory.py: the keys of the cache of searches in Redis, and
-- `_invalidate_query_cache`. SCAN is an interface; a tenant id has no character that is special in
-- a pattern, so that the pattern asks for a prefix.
pub mod Invalidation
use sutram.Prelude.{
  ℕ, zero, suc, ◌<◌, List, [], ◌∷◌, ◌++◌, Bool, true, ◌≡◌, ◌≢◌, ◌⊎◌, Option, none, some, Text,
  text_eq, codes, any, starts_with, ◌==◌, if◌then◌else◌, All,
}
use sutram.Redis.{Redis}
use sutram.Models.{Uuid}

-- SCAN with MATCH `prefix*`: the next cursor, 0 at the end of an iteration, and some keys. The
-- documented guarantee of a full iteration: it ends, and a key that is there all the time is
-- returned in the course of it. `IsPending key cursor` says that the iteration that has come to
-- the cursor has not returned the key, `remaining` bounds its further calls.
pub record Scan {Db : Type 0} (redis : Redis Db) : Type 1 where
  pub scan : ℕ → Text → Db → ℕ × List Text
  pub remaining : ℕ → ℕ
  pub IsPending : Text → ℕ → Type 0
  pub scan-remaining :
      (cursor : ℕ) (prefix : Text) (d : Db)
      → ((scan cursor prefix d).0 ≡ 0) ⊎ (remaining (scan cursor prefix d).0 < remaining cursor)
  pub start-IsPending : (key : Text) → IsPending key 0
  pub scan-IsPending :
      (cursor : ℕ) (prefix key value : Text) (d : Db)
      → IsPending key cursor
      → starts_with key prefix ≡ true
      → redis.get key d ≡ some value
      → (any (text_eq key) (scan cursor prefix d).1 ≡ true)
        ⊎ (((scan cursor prefix d).0 ≢ 0) × IsPending key (scan cursor prefix d).0)
  pub scan-match :
      (cursor : ℕ) (prefix : Text) (d : Db)
      → All (λ key. starts_with key prefix ≡ true) (scan cursor prefix d).1

abbrev pub query_prefix : Uuid → Text
query_prefix tenant_id = codes "memory:query:" ++ (tenant_id ++ codes ":")

module _ {Db : Type 0} (redis : Redis Db) where
  -- DEL of several keys.
  unfoldable pub delete_all : List Text → Db → Db
  delete_all [] d = d
  delete_all (key ∷ keys) d = delete_all keys (redis.delete key d)

module _ {Db : Type 0} (redis : Redis Db) (scans : Scan redis) where
  -- The `while True`, on fuel.
  unfoldable pub invalidate_from : ℕ → ℕ → Text → Db → Option Db
  unfolding delete_all
  invalidate_from zero cursor prefix d = none
  invalidate_from (suc fuel) cursor prefix d =
      let next = (scans.scan cursor prefix d).0 in
      let d' = delete_all redis (scans.scan cursor prefix d).1 d in
      let rest = invalidate_from fuel next prefix d' in if next == 0 then some d' else rest

  unfoldable pub invalidate_query_cache : Uuid → Db → Option Db
  unfolding invalidate_from
  invalidate_query_cache tenant_id d =
      invalidate_from (suc (scans.remaining 0)) 0 (query_prefix tenant_id) d
