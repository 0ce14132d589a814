-- ===== src/Tests/Entries.antt =====
-- A Redis server whose keys can be enumerated, with SCAN in one call.
use sutram.Prelude.{
  ℕ, ◌+◌, List, [], ◌∷◌, map, filter, any, All, All-map, All-filter, Bool, true, false, ◌≡◌, refl,
  inl, inr, Option, none, some, Text, text_eq, text_eq_iff, starts_with, if◌then◌else◌, arith,
  Bool-cases,
}
use sutram.Redis.{Redis}
use sutram.Memory.QueryCache.{Scan}

pub record Entries : Type 0 where
  pub values : List (Text × Text)
  pub counters : Text → ℕ

abbrev pub no_entries : Entries
no_entries = record { values = []; counters = λ k. 0 }

abbrev pub lookup : Text → List (Text × Text) → Option Text
lookup k [] = none
lookup k ((j, v) ∷ es) = let rest = lookup k es in if text_eq j k then some v else rest

abbrev pub put : Text → Text → Entries → Entries
put k v d = record d { values = (k, v) ∷ d.values }

abbrev pub drop_key : Text → List (Text × Text) → List (Text × Text)
drop_key k [] = []
drop_key k ((j, v) ∷ es) = let rest = drop_key k es in if text_eq j k then rest else (j, v) ∷ rest

abbrev pub put_new : Text → Text → Option Text → Entries → Bool × Entries
put_new k v none d = (true, put k v d)
put_new k v (some w) d = (false, d)

abbrev pub bump : Text → Entries → Entries
bump k d = record d { counters = λ j. if text_eq k j then d.counters j + 1 else d.counters j }

pub absent_put :
    (k v : Text) (o : Option Text) (d : Entries)
    → o ≡ none
    → ((put_new k v o d).0 ≡ true)
      × ((j : Text)
          → lookup j (put_new k v o d).1.values
            ≡ (if text_eq k j then some v else lookup j d.values))
absent_put k v none d h = (refl, λ j. refl)
absent_put k v (some w) d h = cc h

pub present_put :
    (k v w : Text) (o : Option Text) (d : Entries)
    → o ≡ some w
    → ((put_new k v o d).0 ≡ false)
      × ((j : Text) → lookup j (put_new k v o d).1.values ≡ lookup j d.values)
present_put k v w none d h = cc h
present_put k v w (some x) d h = (refl, λ j. refl)

pub lookup-drop_key :
    (k j : Text) (es : List (Text × Text))
    → lookup j (drop_key k es) ≡ (if text_eq k j then none else lookup j es)
lookup-drop_key k j [] = ground arith
lookup-drop_key k j ((i, v) ∷ es) =
    ground (arith, lookup-drop_key k j es, text_eq_iff i k, text_eq_iff i j, text_eq_iff k j)

abbrev pub redis : Redis Entries
redis = record {
  get = λ k d. lookup k d.values;
  set_nx = λ k v ttl d. put_new k v (lookup k d.values) d;
  set_ex = λ k v ttl d. put k v d;
  delete = λ k d. record d { values = drop_key k d.values };
  expire = λ k ttl d. d;
  counter = λ k d. d.counters k;
  incr = λ k d. (d.counters k + 1, bump k d);
  set_nx_absent = λ k v ttl d h. absent_put k v (lookup k d.values) d h;
  set_nx_present = λ k v w ttl d h. present_put k v w (lookup k d.values) d h;
  get-set_ex = λ k j v ttl d. refl;
  get-delete = λ k j d. lookup-drop_key k j d.values;
  get-expire = λ k j ttl d. refl;
  incr-counter = λ k d. refl;
  counter-incr = λ k j d. refl;
  counter-expire = λ k j ttl d. refl;
}

abbrev pub keys_with : Text → List (Text × Text) → List Text
keys_with prefix es = filter (λ k. starts_with k prefix) (map (λ e. e.0) es)

pub keys_with-lookup :
    (prefix key value : Text) (es : List (Text × Text))
    → starts_with key prefix ≡ true
    → lookup key es ≡ some value
    → any (text_eq key) (keys_with prefix es) ≡ true
keys_with-lookup prefix key value [] m h = cc h
keys_with-lookup prefix key value ((j, v) ∷ es) m h = elim (Bool-cases (text_eq j key)) [
  | inl e ↦
      let same = (text_eq_iff j key).0 e in
      let match : starts_with j prefix ≡ true = cc (m, same) in
      rw match (ground (arith, text_eq_iff key j, same))
  | inr e ↦ let rest = keys_with-lookup prefix key value es m (rw e at h) in ground (arith, rest)
]

pub All-true : (test : Text → Bool) (ts : List Text) → All (λ k. test k ≡ true) (filter test ts)
All-true test ts = All-map _ (λ k p. p.1) (All-filter (λ k. Unit {0}) test ts (units ts))
  where
    units : (ts : List Text) → All (λ k. Unit {0}) ts
    units [] = tt
    units (t ∷ ts) = (tt, units ts)

abbrev pub scans : Scan redis
scans = record {
  scan = λ cursor prefix d. (0, keys_with prefix d.values);
  remaining = λ cursor. 0;
  IsPending = λ key cursor. Unit {0};
  scan-remaining = λ cursor prefix d. inl refl;
  start-IsPending = λ key. tt;
  scan-IsPending =
      λ cursor prefix key value d p m h. inl (keys_with-lookup prefix key value d.values m h);
  scan-match = λ cursor prefix d. All-true (λ k. starts_with k prefix) (map (λ e. e.0) d.values);
}
