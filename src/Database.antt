-- ===== src/Database.antt =====
-- packages/core/sutram_core/db: sessions of PostgreSQL, and the tenant that a transaction acts for.
pub mod Sessions
pub mod Health
pub mod Engine
