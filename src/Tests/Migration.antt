-- ===== src/Tests/Migration.antt =====
-- The migration of a checkpoint through two of three migrators, given out of order.
use sutram.Prelude.{ℕ, ◌+◌, ◌*◌, [], ◌∷◌, ◌≡◌, refl}
use sutram.Engine.Migration.{MigratorMap, Versioned, migrate_to_current}

abbrev migrators : MigratorMap ℕ
migrators = (3, λ v. v + 1) ∷ (1, λ v. 0) ∷ (2, λ v. v * 10) ∷ []

abbrev checkpoint : Versioned ℕ
checkpoint = record { variables = 4; schema_version = 2 }

migrated : migrate_to_current migrators checkpoint ≡ record { variables = 41; schema_version = 4 }
unfolding migrate_to_current
migrated = refl
