-- ===== src/Tests/Servers.antt =====
-- A Redis server and a database query that satisfy their interfaces, for the tests.
use sutram.Prelude.{
  ℕ, ◌+◌, ◌≤◌, List, [], ◌∷◌, Bool, true, false, ◌≡◌, refl, Option, none, some, Text, text_eq,
  if◌then◌else◌, ltb, arith, All, Option-cases, inl, inr, Bool-cases, ◌&&◌,
}
use sutram.Prelude.Floats.{FloatOps}
use sutram.Redis.{Redis}
use sutram.Engine.Checkpoint.{LatestQuery}
use mathlib.Core.Path.{subst}
use mathlib.Core.List.{Memᴰ}

pub record Db : Type 0 where
  pub values : Text → Option Text
  pub counters : Text → ℕ

abbrev pub empty_db : Db
empty_db = record { values = λ k. none; counters = λ k. 0 }

abbrev pub put : Text → Option Text → Db → Db
put k v d = record d { values = λ j. if text_eq k j then v else d.values j }

abbrev pub put_new : Text → Text → Option Text → Db → Bool × Db
put_new k v none d = (true, put k (some v) d)
put_new k v (some w) d = (false, d)

abbrev pub bump : Text → Db → Db
bump k d = record d { counters = λ j. if text_eq k j then d.counters j + 1 else d.counters j }

pub put_new_absent :
    (k v : Text) (o : Option Text) (d : Db)
    → o ≡ none
    → ((put_new k v o d).0 ≡ true)
      × ((j : Text) → (put_new k v o d).1.values j ≡ (if text_eq k j then some v else d.values j))
put_new_absent k v none d h = (refl, λ j. refl)
put_new_absent k v (some w) d h = cc

pub put_new_present :
    (k v w : Text) (o : Option Text) (d : Db)
    → o ≡ some w
    → ((put_new k v o d).0 ≡ false) × ((j : Text) → (put_new k v o d).1.values j ≡ d.values j)
put_new_present k v w none d h = cc
put_new_present k v w (some x) d h = (refl, λ j. refl)

abbrev pub redis : Redis Db
redis = record {
  get = λ k d. d.values k;
  set_nx = λ k v ttl d. put_new k v (d.values k) d;
  set_ex = λ k v ttl d. put k (some v) d;
  delete = λ k d. put k none d;
  expire = λ k ttl d. d;
  counter = λ k d. d.counters k;
  incr = λ k d. (d.counters k + 1, bump k d);
  set_nx_absent = λ k v ttl d h. put_new_absent k v (d.values k) d h;
  set_nx_present = λ k v w ttl d h. put_new_present k v w (d.values k) d h;
  get-set_ex = λ k j v ttl d. refl;
  get-delete = λ k j d. refl;
  get-expire = λ k j ttl d. refl;
  incr-counter = λ k d. refl;
  counter-incr = λ k j d. refl;
  counter-expire = λ k j ttl d. refl;
}

abbrev pub nat_floats : FloatOps ℕ
nat_floats = record { zero = 0; add = λ a b. a + b; gt = λ a b. ltb b a }

module _ {Row : Type 0} (test : Row → Bool) (key : Row → ℕ) where
  abbrev pub later : Row → Option Row → Option Row
  later r none = if test r then some r else none
  later r (some best) = if test r && ltb (key best) (key r) then some r else some best

  abbrev pub latest : List Row → Option Row
  latest [] = none
  latest (r ∷ rows) = later r (latest rows)

  pub latest-none : (rows : List Row) → latest rows ≡ none → All (λ r. test r ≡ false) rows
  latest-none [] h = tt
  latest-none (r ∷ rows) h = elim (Option-cases (latest rows)) [
    | inl e ↦ (ground (arith, h, e), latest-none rows e)
    | inr (best, e) ↦ ground (arith, h, e)
  ]

  abbrev pub IsLatest : Row → List Row → Type 0
  IsLatest r rows = Memᴰ r rows × (test r ≡ true) × All (λ x. test x ≡ true → key x ≤ key r) rows

  All-below :
      (rows : List Row)
      → All (λ r. test r ≡ false) rows
      → (k : ℕ) → All (λ x. test x ≡ true → key x ≤ k) rows
  All-below [] h k = tt
  All-below (r ∷ rows) h k = (λ t. cc (t, h.0), All-below rows h.1 k)

  All-raise :
      (rows : List Row) (j k : ℕ)
      → j ≤ k
      → All (λ x. test x ≡ true → key x ≤ j) rows
      → All (λ x. test x ≡ true → key x ≤ k) rows
  All-raise [] j k le h = tt
  All-raise (r ∷ rows) j k le h =
      (λ t. (let b = h.0 t in omega (arith, b, le)), All-raise rows j k le h.1)

  IsLatest-first :
      (x r : Row) (rows : List Row)
      → some x ≡ some r
      → test x ≡ true
      → All (λ y. test y ≡ true → key y ≤ key x) rows
      → IsLatest r (x ∷ rows)
  IsLatest-first x r rows h t below =
      let e : x ≡ r = cc h in
      subst (λ y. IsLatest y (x ∷ rows)) e (Memᴰ.head refl, t, (λ u. omega arith, below))

  IsLatest-rest :
      (x best r : Row) (rows : List Row)
      → some best ≡ some r
      → (test x ≡ true → key x ≤ key best)
      → IsLatest best rows
      → IsLatest r (x ∷ rows)
  IsLatest-rest x best r rows h le (m, t, below) =
      let e : best ≡ r = cc h in subst (λ y. IsLatest y (x ∷ rows)) e (Memᴰ.tail m, t, (le, below))

  IsLatest-later :
      (x best r : Row) (rows : List Row) (wanted newer : Bool)
      → test x ≡ wanted
      → ltb (key best) (key x) ≡ newer
      → (if wanted && newer then some x else some best) ≡ some r
      → IsLatest best rows
      → IsLatest r (x ∷ rows)
  IsLatest-later x best r rows true true t n h (m, u, below) =
      IsLatest-first x r rows h t (All-raise rows (key best) (key x) (ground arith) below)
  IsLatest-later x best r rows true false t n h i =
      IsLatest-rest x best r rows h (λ u. ground arith) i
  IsLatest-later x best r rows false newer t n h i =
      IsLatest-rest x best r rows h (λ u. cc (t, u)) i

  pub latest-some : (rows : List Row) (r : Row) → latest rows ≡ some r → IsLatest r rows
  latest-some [] r h = cc
  latest-some (x ∷ rows) r h = elim (Option-cases (latest rows)) [
    | inl e ↦ elim (Bool-cases (test x)) [
      | inl t ↦
          IsLatest-first x r rows (ground (arith, h, e, t)) t
            (All-below rows (latest-none rows e) (key x))
      | inr t ↦ ground (arith, h, e, t)
    ]
    | inr (best, e) ↦
        IsLatest-later x best r rows (test x) (ltb (key best) (key x)) refl refl (rw e at h)
          (latest-some rows best e)
  ]

module _ {Row : Type 0} where
  abbrev pub latest_query : LatestQuery Row
  latest_query = record {
    first_desc = latest;
    first_desc_none = latest-none;
    first_desc_some = latest-some;
  }
