-- ===== src/Memory/QueryCache/Invalidation.antt =====
-- services/memory-service/app/routes/memory.py: what `_invalidate_query_cache` deletes.
use sutram.Prelude.{
  ℕ, zero, suc, ◌<◌, List, [], ◌∷◌, true, false, ◌≡◌, refl, ◌⊎◌, inl, inr, Option, none, some, Text,
  text_eq, text_eq_iff, any, starts_with, ◌≢◌, ◌==◌, if◌then◌else◌, All, arith, Bool-cases,
  Option-cases, ◌∙◌,
}
use sutram.Redis.{Redis}
use sutram.Models.{Uuid}
use sutram.Memory.QueryCache.{
  Scan, query_prefix, delete_all, invalidate_from, invalidate_query_cache,
}

module _ {Db : Type 0} (redis : Redis Db) where
  get-delete_all :
      (key : Text) (keys : List Text) (d : Db)
      → redis.get key (delete_all redis keys d)
        ≡ (if any (text_eq key) keys then none else redis.get key d)
  unfolding delete_all
  get-delete_all key [] d = refl
  get-delete_all key (k ∷ keys) d = ground (
    arith,
    get-delete_all key keys (redis.delete k d),
    redis.get-delete k key d,
    text_eq_iff k key,
    text_eq_iff key k,
  )

  any-match :
      (key prefix : Text) (keys : List Text)
      → All (λ k. starts_with k prefix ≡ true) keys
      → starts_with key prefix ≡ false
      → any (text_eq key) keys ≡ false
  any-match key prefix [] a h = refl
  any-match key prefix (k ∷ keys) a h = elim (Bool-cases (text_eq key k)) [
    | inl e ↦ let same = (text_eq_iff key k).0 e in cc (same, h, a.0)
    | inr e ↦ rw e (any-match key prefix keys a.1 h)
  ]

module _ {Db : Type 0} (redis : Redis Db) (scans : Scan redis) where
  -- The keys with the prefix are gone, and the others are as they were.
  abbrev pub IsInvalidated : Text → Db → Option Db → Type 0
  IsInvalidated prefix d answer =
      (d' : Db) × (answer ≡ some d')
      × ((key : Text)
          → redis.get key d' ≡ (if starts_with key prefix then none else redis.get key d))

  abbrev IsCleared : Text → Db → Option Db → Type 0
  IsCleared prefix d answer =
      (d' : Db) × (answer ≡ some d')
      × ((key : Text) → starts_with key prefix ≡ true → redis.get key d' ≡ none)
      × ((key : Text) → starts_with key prefix ≡ false → redis.get key d' ≡ redis.get key d)

  -- What is left to delete is pending.
  abbrev IsLeft : ℕ → Text → Db → Type 0
  IsLeft cursor prefix d =
      (key : Text)
      → starts_with key prefix ≡ true
      → (redis.get key d ≡ none) ⊎ scans.IsPending key cursor

  delete-IsLeft :
      (cursor : ℕ) (prefix : Text) (d : Db)
      → IsLeft cursor prefix d
      → (key : Text) → starts_with key prefix ≡ true
      → (redis.get key (delete_all redis (scans.scan cursor prefix d).1 d) ≡ none)
        ⊎ (((scans.scan cursor prefix d).0 ≢ 0)
            × scans.IsPending key (scans.scan cursor prefix d).0)
  delete-IsLeft cursor prefix d left key match =
      let read = get-delete_all redis key (scans.scan cursor prefix d).1 d in
      elim (Option-cases (redis.get key d)) [
        | inl e ↦ inl (ground (arith, read, e))
        | inr (v, e) ↦ elim (left key match) [
          | inl gone ↦ inl (cc (gone, e))
          | inr pending ↦ elim (scans.scan-IsPending cursor prefix key v d pending match e) [
            | inl found ↦ inl (ground (arith, read, found))
            | inr later ↦ inr later
          ]
        ]
      ]

  delete-others :
      (cursor : ℕ) (prefix : Text) (d : Db) (key : Text)
      → starts_with key prefix ≡ false
      → redis.get key (delete_all redis (scans.scan cursor prefix d).1 d) ≡ redis.get key d
  delete-others cursor prefix d key h =
      let keys = (scans.scan cursor prefix d).1 in
      let none_of = any-match redis key prefix keys (scans.scan-match cursor prefix d) h in
      ground (arith, get-delete_all redis key keys d, none_of)

  invalidate_from-IsCleared :
      (fuel cursor : ℕ) (prefix : Text) (d : Db)
      → scans.remaining cursor < fuel
      → IsLeft cursor prefix d
      → IsCleared prefix d (invalidate_from redis scans fuel cursor prefix d)
  unfolding invalidate_from
  invalidate_from-IsCleared zero cursor prefix d f left = ground (arith, f)
  invalidate_from-IsCleared (suc fuel) cursor prefix d f left =
      let next = (scans.scan cursor prefix d).0 in
      let d' = delete_all redis (scans.scan cursor prefix d).1 d in
      let left' = delete-IsLeft cursor prefix d left in
      elim (Bool-cases (next == 0)) [
        | inl e ↦ rw e (
          d',
          refl,
          (λ key match. elim (left' key match) [
            | inl gone ↦ gone
            | inr (more, p) ↦ ground (arith, e, more)
          ]),
          delete-others cursor prefix d,
        )
        | inr e ↦ elim (scans.scan-remaining cursor prefix d) [
          | inl end ↦ ground (arith, e, end)
          | inr fewer ↦
              let (last, r, gone, others) =
                invalidate_from-IsCleared fuel next prefix d' (omega (arith, fewer, f))
                  (λ key match. elim (left' key match) [
                    | inl gone ↦ inl gone
                    | inr (more, p) ↦ inr p
                  ]) in
              rw e (last, r, gone, λ key h. others key h ∙ delete-others cursor prefix d key h)
        ]
      ]

  -- The scan ends, then no key of a cached search of the tenant is left, and every key without
  -- the tenant's prefix reads as before.
  pub invalidate_query_cache-IsInvalidated :
      (tenant_id : Uuid) (d : Db)
      → IsInvalidated (query_prefix tenant_id) d (invalidate_query_cache redis scans tenant_id d)
  unfolding invalidate_query_cache
  invalidate_query_cache-IsInvalidated tenant_id d =
      let prefix = query_prefix tenant_id in
      let (d', done, gone, others) =
        invalidate_from-IsCleared (suc (scans.remaining 0)) 0 prefix d (omega arith)
          (λ key match. inr (scans.start-IsPending key)) in
      (
        d',
        done,
        λ key. elim (Bool-cases (starts_with key prefix)) [
          | inl m ↦ rw m (gone key m)
          | inr m ↦ rw m (others key m)
        ],
      )
