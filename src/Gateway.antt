-- ===== src/Gateway.antt =====
-- services/api-gateway: the reverse proxy and its authentication.
pub mod Auth
pub mod Headers
pub mod Proxy
pub mod Clients
pub mod Health
