-- ===== src/Database/Engine.antt =====
-- create_engine of packages/core/sutram_core/db/session.py: the pool that a database URL gets. How
-- Python lowers the letters of a text is a parameter.
use sutram.Prelude.{ℕ, Bool, true, false, Text, codes, starts_with, if◌then◌else◌}

-- The pool with its arguments, as `create_async_engine` gets them.
pub data Pool : Type 0 where
  static_pool : Bool → Pool
  null_pool : Pool
  default_pool : ℕ → ℕ → Bool → Pool

unfoldable pub is_sqlite : (Text → Text) → Text → Bool
is_sqlite lower database_url = starts_with (lower database_url) (codes "sqlite")

unfoldable pub create_engine : (Text → Text) → Text → Bool → Pool
create_engine lower database_url use_nullpool =
    if is_sqlite lower database_url
    then static_pool false
    else if use_nullpool
    then null_pool
    else default_pool 5 10 true
