-- ===== src/Engine/Migration.antt =====
-- packages/core/sutram_core/models/checkpoint.py: the migration of the variables of a checkpoint.
-- `V` is the JSON object of the variables; the other fields of a checkpoint stay as they are.
pub mod Versions
use sutram.Prelude.{ℕ, ◌+◌, List, [], ◌∷◌, filter, Bool, leb, if◌then◌else◌}

-- The dict of migrators, by the version that each starts from.
abbrev pub MigratorMap : Type 0 → Type 0
MigratorMap V = List (ℕ × (V → V))

pub record Versioned (V : Type 0) : Type 0 where
  pub variables : V
  pub schema_version : ℕ

module _ {V : Type 0} where
  -- `sorted(v for v in migrators if v >= version)`, each version with its migrator.
  unfoldable pub insert_version : ℕ × (V → V) → MigratorMap V → MigratorMap V
  insert_version m [] = m ∷ []
  insert_version m (n ∷ ms) =
      let rest = insert_version m ms in if leb m.0 n.0 then m ∷ n ∷ ms else n ∷ rest

  unfoldable pub sort_versions : MigratorMap V → MigratorMap V
  unfolding insert_version
  sort_versions [] = []
  sort_versions (m ∷ ms) = insert_version m (sort_versions ms)

  unfoldable pub sorted_versions : ℕ → MigratorMap V → MigratorMap V
  unfolding sort_versions
  sorted_versions version migrators = sort_versions (filter (λ m. leb version m.0) migrators)

  -- The loop over the versions.
  unfoldable pub apply_migrators : MigratorMap V → Versioned V → Versioned V
  apply_migrators [] c = c
  apply_migrators ((v, migrator) ∷ ms) c =
      apply_migrators ms (record { variables = migrator c.variables; schema_version = v + 1 })

  unfoldable pub migrate_to_current : MigratorMap V → Versioned V → Versioned V
  unfolding apply_migrators sorted_versions
  migrate_to_current migrators c = apply_migrators (sorted_versions c.schema_version migrators) c
