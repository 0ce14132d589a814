-- ===== src/Memory.antt =====
-- services/memory-service/app: the memory service, part by part.
pub mod Embedder
pub mod Tables
pub mod Reranker
pub mod Searcher
pub mod Compressor
pub mod CompressTask
pub mod QueryCache
pub mod Schemas
pub mod Routes
pub mod SearchRoute
pub mod Clients
