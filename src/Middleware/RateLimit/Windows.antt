-- ===== src/Middleware/RateLimit/Windows.antt =====
-- rate_limit.py: how many requests of a tenant pass in one window.
use sutram.Prelude.{
  ℕ, suc, ◌+◌, ◌/◌, List, [], ◌∷◌, ◌++◌, Bool, true, false, ◌&&◌, ◌≡◌, arith, Text, codes, str_int,
  text_eq, text_eq_iff, length, min, All, ◌==◌, if◌then◌else◌, Result, ok, err, leb, Bool-cases,
  ◌∙◌, inl, ap, inr,
}
use sutram.Prelude.Strings.Decimal.{text_eq-str_int, text_eq-append}
use sutram.Redis.{Redis}
use sutram.Middleware.RateLimit.{RateLimitExceeded, window_seconds, rate_key, check, ttl_seconds}

text_eq-rate_key :
    (t u : Text) (v w : ℕ)
    → length t ≡ length u
    → text_eq (rate_key t v) (rate_key u w) ≡ (text_eq t u && (v == w))
text_eq-rate_key t u v w h = ground (
  arith,
  text_eq-append t u (codes ":" ++ str_int v) (codes ":" ++ str_int w) h,
  text_eq-str_int v w,
)

-- A request: the tenant that makes it, and the second at which it is checked.
abbrev pub Request : Type 0
Request = Text × ℕ

abbrev pub is_ok : {A : Type 0} → Result RateLimitExceeded A → Bool
is_ok (ok a) = true
is_ok (err e) = false

-- The request is for this tenant and this window.
abbrev pub is_for : Text → ℕ → Request → Bool
is_for tenant window (t, now) = text_eq t tenant && (now / window_seconds == window)

abbrev pub count_for : Text → ℕ → List Request → ℕ
count_for tenant window [] = 0
count_for tenant window (r ∷ rs) =
    let rest = count_for tenant window rs in if is_for tenant window r then suc rest else rest

module _ {Db : Type 0} (redis : Redis Db) (limit : ℕ) where
  -- How many requests of a tenant pass in a window, over a sequence of requests of any tenants at
  -- any times.
  unfoldable pub passed : Text → ℕ → List Request → Db → ℕ
  passed tenant window [] d = 0
  passed tenant window ((t, now) ∷ rs) d =
      let rest = passed tenant window rs (check redis limit t now d).1 in
      if is_for tenant window (t, now) && is_ok (check redis limit t now d).0
      then suc rest
      else rest

  counter-check :
      (tenant t : Text) (window now : ℕ) (d : Db)
      → length t ≡ length tenant
      → redis.counter (rate_key tenant window) (check redis limit t now d).1 ≡ (
          if is_for tenant window (t, now)
          then redis.counter (rate_key tenant window) d + 1
          else redis.counter (rate_key tenant window) d)
  unfolding check
  counter-check tenant t window now d h =
      let k = rate_key t (now / window_seconds) in
      let kept = redis.counter-expire k (rate_key tenant window) ttl_seconds (redis.incr k d).1 in
      ground (
        arith,
        kept,
        redis.counter-incr k (rate_key tenant window) d,
        text_eq-rate_key t tenant (now / window_seconds) window h,
      )

  is_ok-check :
      (tenant t : Text) (window now : ℕ) (d : Db)
      → length t ≡ length tenant
      → is_for tenant window (t, now) ≡ true
      → is_ok (check redis limit t now d).0
        ≡ leb (redis.counter (rate_key tenant window) d + 1) limit
  unfolding check
  is_ok-check tenant t window now d h same =
      let k = rate_key t (now / window_seconds) in
      let e : k ≡ rate_key tenant window =
        (text_eq_iff k (rate_key tenant window)).0
          (text_eq-rate_key t tenant (now / window_seconds) window h ∙ same) in
      ground (arith, redis.incr-counter k d, ap (λ x. redis.counter x d) e)

  passed-min :
      (tenant : Text) (window : ℕ) (rs : List Request) (d : Db)
      → All (λ r. length r.0 ≡ length tenant) rs
      → passed tenant window rs d + min limit (redis.counter (rate_key tenant window) d)
        ≡ min limit (redis.counter (rate_key tenant window) d + count_for tenant window rs)
  unfolding passed
  passed-min tenant window [] d h = omega arith
  passed-min tenant window ((t, now) ∷ rs) d h =
      let later = passed-min tenant window rs (check redis limit t now d).1 h.1 in
      let counted = counter-check tenant t window now d h.0 in
      elim (Bool-cases (is_for tenant window (t, now))) [
        | inl e ↦
            rw e (ground (arith, later, rw e at counted, is_ok-check tenant t window now d h.0 e))
        | inr e ↦ rw e (ground (arith, later, rw e at counted))
      ]

  -- Of a sequence of requests of any tenants at any times, the requests of one tenant in one window
  -- that pass are as many as the limit allows, and all of them where they are no more than the
  -- limit: the traffic of other tenants and of other windows does not count. The tenant ids have one
  -- length, as UUIDs have, and the window's counter begins at zero.
  pub passed-exact :
      (tenant : Text) (window : ℕ) (rs : List Request) (d : Db)
      → All (λ r. length r.0 ≡ length tenant) rs
      → redis.counter (rate_key tenant window) d ≡ 0
      → passed tenant window rs d ≡ min limit (count_for tenant window rs)
  passed-exact tenant window rs d h zero_count =
      let e = passed-min tenant window rs d h in omega (arith, rw zero_count at e)
