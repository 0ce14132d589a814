-- ===== src/Redis.antt =====
-- The Redis server behind redis.asyncio, as an interface: the commands that the services send, and
-- their documented effect on what a later command reads. `Db` is the contents of one logical
-- database. The passing of time, which removes a key with a TTL, is a step of its own where a
-- component depends on it.
use sutram.Prelude.{
  ℕ, ◌+◌, Bool, true, false, ◌≡◌, Option, none, some, Text, text_eq, if◌then◌else◌,
}

pub record Redis (Db : Type 0) : Type 0 where
  -- GET
  pub get : Text → Db → Option Text
  -- SET key value NX EX ttl, which answers whether the key was set.
  pub set_nx : Text → Text → ℕ → Db → Bool × Db
  -- SET key value EX ttl, and SETEX.
  pub set_ex : Text → Text → ℕ → Db → Db
  -- DEL
  pub delete : Text → Db → Db
  -- EXPIRE
  pub expire : Text → ℕ → Db → Db
  -- The integer at a key, 0 where there is none, and INCR.
  pub counter : Text → Db → ℕ
  pub incr : Text → Db → ℕ × Db
  pub set_nx_absent :
      (k v : Text) (ttl : ℕ) (d : Db)
      → get k d ≡ none
      → ((set_nx k v ttl d).0 ≡ true)
        × ((j : Text) → get j (set_nx k v ttl d).1 ≡ (if text_eq k j then some v else get j d))
  pub set_nx_present :
      (k v w : Text) (ttl : ℕ) (d : Db)
      → get k d ≡ some w
      → ((set_nx k v ttl d).0 ≡ false) × ((j : Text) → get j (set_nx k v ttl d).1 ≡ get j d)
  pub get-set_ex :
      (k j v : Text) (ttl : ℕ) (d : Db)
      → get j (set_ex k v ttl d) ≡ (if text_eq k j then some v else get j d)
  pub get-delete :
      (k j : Text) (d : Db) → get j (delete k d) ≡ (if text_eq k j then none else get j d)
  pub get-expire : (k j : Text) (ttl : ℕ) (d : Db) → get j (expire k ttl d) ≡ get j d
  pub incr-counter : (k : Text) (d : Db) → (incr k d).0 ≡ counter k d + 1
  pub counter-incr :
      (k j : Text) (d : Db)
      → counter j (incr k d).1 ≡ (if text_eq k j then counter j d + 1 else counter j d)
  pub counter-expire : (k j : Text) (ttl : ℕ) (d : Db) → counter j (expire k ttl d) ≡ counter j d
