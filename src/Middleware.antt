-- ===== src/Middleware.antt =====
-- packages/core/sutram_core/middleware: what the services share in front of their routes.
pub mod RateLimit
pub mod Idempotency
pub mod InternalAuth
pub mod Jwt
