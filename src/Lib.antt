-- ===== src/Lib.antt =====
-- Sutram runs workflows for many tenants: an API gateway in front of a workflow, a memory and an
-- observability service, which share Redis and a library of their own (packages/core).
--
-- Prelude: numbers, lists, texts as lists of code points, and code that may raise
-- (Prelude/Program). Redis: the commands of the Redis server as an interface with laws. Models and
-- Events: packages/core/sutram_core/models and events; Events/Messages is to_stream_dict of
-- events/base.py, and Events/Classes what model_validate makes of a message for each event class.
-- Events/Streams is packages/core/sutram_core/streams/redis_streams.py, on streams of Redis that
-- are an interface with laws.
--
-- Database: packages/core/sutram_core/db/session.py, middleware/tenant.py and the sessions of the
-- services' app/dependencies.py, on a session of PostgreSQL that is an interface with laws: COMMIT
-- makes all changes visible or none, and SET LOCAL may be refused. Database/Engine is
-- create_engine of db/session.py, and Database/Health the route /health, which is the same in the
-- services' app/main.py.
--
-- Locking: packages/core/sutram_core/locking/redis_lock.py, RedisLock.acquire as try_acquire,
-- renew and release; Locking/Workers lets any number of workers use one key, and drops the key at
-- any time, as a TTL does; a worker may die with its lock.
--
-- Middleware: packages/core/sutram_core/middleware, with RateLimit (RateLimiter.check),
-- Idempotency (IdempotencyStore), InternalAuth, and Jwt, the decode_jwt of auth.py. The clock is
-- read in whole seconds.
--
-- Engine: services/workflow-service/app/engine. Fsm is state_machine.py, Cost is cost_tracker.py,
-- Checkpoint is checkpoint.py, Migration the migrators of
-- packages/core/sutram_core/models/checkpoint.py, and Executor is executor.py. Engine/Exec is what
-- the executor runs in: the row and the local variables are a state, the calls that leave the
-- process a trace, exceptions are values, and a Host answers every call, from the calls made so
-- far. A Host may raise at any call. The loop over the steps is structural recursion. Executor.run
-- is run, its loop step_loop and run_step, its handlers on_exception, the part after the loop
-- finish. Engine/Executor/Outline describes the calls of a run independently.
--
-- Engine/Recovery is recovery.py and Engine/Task is
-- services/workflow-service/app/tasks/execute.py.
--
-- Executions: services/workflow-service/app/routes/executions.py, with the commands get, pause,
-- resume and cancel on a table of rows and the queue of the workers. Workflows is
-- routes/workflows.py and the route execute, Workflows/Internal routes/internal.py, and
-- Workflows/Sse the route stream_execution, whose event_generator reads a list of polls that ends
-- where the client leaves.
--
-- Webhooks: services/workflow-service/app/webhooks, where Webhooks/Delivery is tasks.py and
-- dispatcher.py. The task is run on fuel, by attempts, and five are enough. Webhooks/UrlValidator
-- is url_validator.py, an address being a number, Webhooks/Subscriptions is routes/webhooks.py,
-- and Webhooks/Crypto is crypto.py.
--
-- Gateway: services/api-gateway/app, where Auth is middleware/auth.py, Headers and Proxy are
-- routes/proxy.py. The HTTP client is a function from the requests sent so far and the next one to
-- a response, or to none where it raises. Gateway/Proxy/Streaming is the body of a streamed
-- response, which the server reads after it has sent status and headers. Gateway/Clients is
-- dependencies.py with the lifespan of main.py, Gateway/Health routes/health.py.
-- Workflows/Clients, Memory/Clients and Observability/Clients are the same files of the other
-- services. Gateway/Headers/Downstream lets get_tenant_id_from_header of
-- services/workflow-service/app/dependencies.py, which is Workflows/Dependencies, read what the
-- gateway forwards.
--
-- Observability: services/observability-service/app, where Sampler is sampling/tail_sampler.py,
-- and Spans and Handler are consumer/handler.py with _process_one of consumer/loop.py. Commands of
-- Redis take effect at once, rows only with the commit.
--
-- Observability/Loop is consumer/loop.py: a round takes what Redis answers as an argument.
-- Observability/Routes is routes/audit.py and routes/traces.py, with routes/metrics_api.py in
-- Routes/Summary. Observability/Gauges is metrics/prometheus.py without its histograms.
--
-- Embedding: packages/core/sutram_core/embedding/registry.py, a provider being a name and a
-- function with a state, and Embedding/OpenAi openai.py.
--
-- Memory: services/memory-service/app, where Embedder, Reranker and Searcher are the files of
-- retrieval, Compressor is compression/compressor.py with archiver.py, CompressTask is
-- tasks/compress.py, and QueryCache, Routes and SearchRoute are routes/memory.py. Memory/Tables
-- has the rows, and what PostgreSQL does with ORDER BY, LIMIT and SELECT DISTINCT as an interface
-- with laws, which an approximate index satisfies. Floating-point arithmetic, SHA-256, JSON, the
-- language model and S3 are parameters. The scan over cached searches runs on fuel, one more than
-- the calls that an iteration of SCAN takes at most.
--
-- Tests instantiates the parameters and applies the theorems.
--
-- Not modelled: AES-GCM, HMAC, the signature of tokens, JSON, pydantic's reading of values, and
-- the clients of Redis, PostgreSQL, Celery and HTTP, which are parameters; the defaults of the
-- settings, the construction of the applications, the registration of Celery tasks, and the tables
-- and indexes that the migrations define. Row-level security is not modelled: the routes name the
-- tenant in their queries. No key of Redis runs out by its TTL but in Locking/Workers and
-- Memory/Embedder/Cache, so that a theorem on keys is about the time before. A heartbeat of the
-- lock is a step of Locking/Workers and runs beside Executor, not inside it; whether it has failed
-- when a run ends is an answer of the Host.
pub mod Prelude
pub mod Models
pub mod Events
pub mod Redis
pub mod Locking
pub mod Middleware
pub mod Engine
pub mod Tests
pub mod Gateway
pub mod Webhooks
pub mod Database
pub mod Executions
pub mod Observability
pub mod Embedding
pub mod Memory
pub mod Workflows
