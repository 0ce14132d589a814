-- ===== src/Tests.antt =====
-- Concrete inputs: the parts that stand for code outside the repository, instantiated, and the
-- theorems applied to them.
mod Servers
mod Samples
mod Engine
mod Shared
mod Gateway
mod Webhooks
mod Executions
mod Observability
mod Recovery
mod Urls
mod Subscriptions
mod Entries
mod Memory
mod Searches
mod Rankings
mod Isolation
mod Compression
mod Streams
mod Migration
mod Sessions
mod Secrets
mod Reports
mod Messages
mod Queue
