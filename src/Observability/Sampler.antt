-- ===== src/Observability/Sampler.antt =====
-- services/observability-service/app/sampling/tail_sampler.py: the spans of an execution are held in
-- a Redis hash until it completes. The Redis server is an interface: a hash's fields and the plain
-- keys, with what the commands do to them. JSON is a pair of parameters.
use sutram.Prelude.{
  ℕ, Bool, true, false, ◌||◌, List, [], ◌∷◌, ◌++◌, map, Option, none, some, ◌≡◌, Text, codes,
  text_eq, ltb, if◌then◌else◌,
}
use sutram.Prelude.Dicts.{Dict}
use sutram.Models.{Uuid}

pub record Buffer (Db : Type 0) : Type 0 where
  -- HSET, HGETALL with the values only, EXPIRE, SET with EX, GET, DEL of several keys.
  pub hset : Text → Text → Text → Db → Db
  pub hvals : Text → Db → List Text
  pub expire : Text → ℕ → Db → Db
  pub set_ex : Text → Text → ℕ → Db → Db
  pub get : Text → Db → Option Text
  pub delete : List Text → Db → Db
  pub get-hset : (k j f v : Text) (d : Db) → text_eq k j ≡ false → get j (hset k f v d) ≡ get j d
  pub get-expire : (k j : Text) (ttl : ℕ) (d : Db) → get j (expire k ttl d) ≡ get j d
  pub get-set_ex :
      (k j v : Text) (ttl : ℕ) (d : Db)
      → get j (set_ex k v ttl d) ≡ (if text_eq k j then some v else get j d)
  pub get-delete :
      (k l j : Text) (d : Db)
      → get j (delete (k ∷ l ∷ []) d) ≡ (if text_eq k j || text_eq l j then none else get j d)

pub record TailSampler : Type 0 where
  pub ttl_seconds : ℕ
  pub slow_threshold_ms : ℕ

abbrev pub buffer_key : Uuid → Text
buffer_key execution_id = codes "trace:buffer:" ++ execution_id

abbrev pub failure_key : Uuid → Text
failure_key execution_id = codes "trace:has_failure:" ++ execution_id

-- `if has_failure`: a value that is there and not empty.
abbrev pub is_truthy : Option Text → Bool
is_truthy none = false
is_truthy (some []) = false
is_truthy (some (c ∷ s)) = true

module _ {Db : Type 0} (redis : Buffer Db) (dumps : Dict → Text) (loads : Text → Dict)
    (sampler : TailSampler) where
  unfoldable pub buffer_span : Uuid → Text → Dict → Db → Db
  buffer_span execution_id span_key span_data d =
      redis.expire (buffer_key execution_id) sampler.ttl_seconds
        (redis.hset (buffer_key execution_id) span_key (dumps span_data) d)

  unfoldable pub mark_has_failure : Uuid → Db → Db
  mark_has_failure execution_id d =
      redis.set_ex (failure_key execution_id) (codes "1") sampler.ttl_seconds d

  -- `sampled` is whether the random number lies below the sample rate.
  unfoldable pub should_keep : Uuid → ℕ → Bool → Db → Bool
  should_keep execution_id total_duration_ms sampled d =
      is_truthy (redis.get (failure_key execution_id) d)
      || (ltb sampler.slow_threshold_ms total_duration_ms || sampled)

  unfoldable pub flush : Uuid → Db → List Dict × Db
  flush execution_id d = (
    map loads (redis.hvals (buffer_key execution_id) d),
    redis.delete (buffer_key execution_id ∷ failure_key execution_id ∷ []) d,
  )
