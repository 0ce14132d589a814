-- ===== src/Engine/Migration/Versions.antt =====
-- packages/core/sutram_core/models/checkpoint.py: where a migration ends.
use sutram.Prelude.{
  ℕ, ◌+◌, ◌≤◌, ◌<◌, ◌≡◌, refl, [], ◌∷◌, filter, All, false, leb, Bool-cases, inl, inr, arith,
}
use sutram.Engine.Migration.{
  MigratorMap, Versioned, insert_version, sort_versions, sorted_versions, apply_migrators,
  migrate_to_current,
}

module _ {V : Type 0} where
  -- Versions that ascend from a bound.
  IsAscending : ℕ → MigratorMap V → Type 0
  IsAscending low [] = Unit
  IsAscending low (m ∷ ms) = (low ≤ m.0) × IsAscending m.0 ms

  insert_version-IsAscending :
      (low : ℕ) (m : ℕ × (V → V)) (ms : MigratorMap V)
      → low ≤ m.0
      → IsAscending low ms
      → IsAscending low (insert_version m ms)
  unfolding insert_version IsAscending
  insert_version-IsAscending low m [] le a = (le, tt)
  insert_version-IsAscending low m (n ∷ ms) le a = elim (Bool-cases (leb m.0 n.0)) [
    | inl e ↦ rw e (le, (ground (arith, e), a.1))
    | inr e ↦ rw e (a.0, insert_version-IsAscending n.0 m ms (ground (arith, e)) a.1)
  ]

  sort_versions-IsAscending :
      (version : ℕ) (ms : MigratorMap V)
      → All (λ m. version ≤ m.0) ms
      → IsAscending version (sort_versions ms)
  unfolding sort_versions IsAscending
  sort_versions-IsAscending version [] a = tt
  sort_versions-IsAscending version (m ∷ ms) a =
      insert_version-IsAscending version m (sort_versions ms) a.0
        (sort_versions-IsAscending version ms a.1)

  -- The final version is above every version that was applied, and above what the first was above.
  apply_migrators-above :
      (low k : ℕ) (ms : MigratorMap V) (c : Versioned V)
      → k < c.schema_version
      → k ≤ low
      → IsAscending low ms
      → k < (apply_migrators ms c).schema_version
  unfolding apply_migrators IsAscending
  apply_migrators-above low k [] c lt le a = lt
  apply_migrators-above low k ((v, f) ∷ ms) c lt le a =
      let next : Versioned V = record { variables = f c.variables; schema_version = v + 1 } in
      apply_migrators-above v k ms next (omega (arith, le, a.0)) (omega (arith, le, a.0)) a.1

  apply_migrators-All :
      (low : ℕ) (ms : MigratorMap V) (c : Versioned V)
      → IsAscending low ms
      → All (λ m. m.0 < (apply_migrators ms c).schema_version) ms
  unfolding apply_migrators IsAscending
  apply_migrators-All low [] c a = tt
  apply_migrators-All low ((v, f) ∷ ms) c a =
      let next : Versioned V = record { variables = f c.variables; schema_version = v + 1 } in
      (
        apply_migrators-above v v ms next (omega arith) (omega arith) a.1,
        apply_migrators-All v ms next a.1,
      )

  All-unsort_one :
      (P : ℕ × (V → V) → Type 0) (m : ℕ × (V → V)) (ms : MigratorMap V)
      → All P (insert_version m ms)
      → P m × All P ms
  unfolding insert_version
  All-unsort_one P m [] = λ a. a
  All-unsort_one P m (n ∷ ms) = elim (Bool-cases (leb m.0 n.0)) [
    | inl e ↦ rw e (λ a. a)
    | inr e ↦ rw e (λ a. let (h, t) = All-unsort_one P m ms a.1 in (h, (a.0, t)))
  ]

  All-unsort : (P : ℕ × (V → V) → Type 0) (ms : MigratorMap V) → All P (sort_versions ms) → All P ms
  unfolding sort_versions
  All-unsort P [] a = tt
  All-unsort P (m ∷ ms) a =
      let (h, t) = All-unsort_one P m (sort_versions ms) a in (h, All-unsort P ms t)

  All-unfilter :
      (P : ℕ × (V → V) → Type 0) (version : ℕ) (ms : MigratorMap V)
      → ((m : ℕ × (V → V)) → m.0 < version → P m)
      → All P (filter (λ m. leb version m.0) ms)
      → All P ms
  All-unfilter P version [] below = λ a. tt
  All-unfilter P version (m ∷ ms) below = elim (Bool-cases (leb version m.0)) [
    | inl e ↦ rw e (λ a. (a.0, All-unfilter P version ms below a.1))
    | inr e ↦ rw e (λ a. (below m (ground (arith, e)), All-unfilter P version ms below a))
  ]

  filter-below :
      (version : ℕ) (ms : MigratorMap V)
      → All (λ m. m.0 < version) ms
      → filter (λ m. leb version m.0) ms ≡ []
  filter-below version [] a = refl
  filter-below version (m ∷ ms) a =
      let e : leb version m.0 ≡ false = ground (arith, a.0) in rw e (filter-below version ms a.1)

  filter-All :
      (version : ℕ) (ms : MigratorMap V)
      → All (λ m. version ≤ m.0) (filter (λ m. leb version m.0) ms)
  filter-All version [] = tt
  filter-All version (m ∷ ms) = elim (Bool-cases (leb version m.0)) [
    | inl e ↦ rw e (ground (arith, e), filter-All version ms)
    | inr e ↦ rw e (filter-All version ms)
  ]

  -- After a migration the version is above those of all migrators that are registered.
  migrate_to_current-All :
      (migrators : MigratorMap V) (c : Versioned V)
      → All (λ m. m.0 < (migrate_to_current migrators c).schema_version) migrators
  unfolding migrate_to_current sorted_versions
  migrate_to_current-All migrators c =
      let due = filter (λ m. leb c.schema_version m.0) migrators in
      let ascending =
        sort_versions-IsAscending c.schema_version due (filter-All c.schema_version migrators) in
      All-unfilter _ c.schema_version migrators
        (λ m lt.
          apply_migrators-above c.schema_version m.0 (sort_versions due) c lt (omega (arith, lt))
            ascending)
        (All-unsort _ due (apply_migrators-All c.schema_version (sort_versions due) c ascending))

  migrate_to_current-current :
      (migrators : MigratorMap V) (c : Versioned V)
      → All (λ m. m.0 < c.schema_version) migrators
      → migrate_to_current migrators c ≡ c
  unfolding migrate_to_current sorted_versions sort_versions apply_migrators
  migrate_to_current-current migrators c above =
      rw (filter-below c.schema_version migrators above) refl

  -- A migrated checkpoint is current: its version is above those of all migrators, and migrating
  -- it again changes nothing.
  pub migrate_to_current-again :
      (migrators : MigratorMap V) (c : Versioned V)
      → All (λ m. m.0 < (migrate_to_current migrators c).schema_version) migrators
        × (migrate_to_current migrators (migrate_to_current migrators c)
            ≡ migrate_to_current migrators c)
  migrate_to_current-again migrators c =
      let above = migrate_to_current-All migrators c in
      (above, migrate_to_current-current migrators (migrate_to_current migrators c) above)
