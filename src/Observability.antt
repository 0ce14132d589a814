-- ===== src/Observability.antt =====
-- services/observability-service: the sampling of traces and the handling of events.
pub mod Sampler
pub mod Spans
pub mod Handler
pub mod Loop
pub mod Routes
pub mod Gauges
pub mod Clients
