-- ===== src/Memory/Schemas.antt =====
-- services/memory-service/app/routes/memory.py and schemas/memory.py: the requests and answers of
-- the memory service, its errors and its state.
use sutram.Prelude.{ℕ, List, Bool, Option, Text, Result, ok, err}
use sutram.Prelude.Slices.{ℤ}
use sutram.Models.{Uuid}
use sutram.Events.{Event}
use sutram.Middleware.InternalAuth.{InternalAuthError, verify_internal_token}
use sutram.Embedding.{EmbedError}
use sutram.Memory.Searcher.{Searcher}
use sutram.Memory.QueryCache.{Scan}
use sutram.Memory.Tables.{MemoryItem, Tables}

-- An HTTPException with status 401 or 404, and an exception of the embedder; `endless` stands for
-- a scan that runs out of fuel.
pub data RouteError (Failure : Type 0) : Type 0 where
  unauthorized : InternalAuthError → RouteError Failure
  not_found : RouteError Failure
  embedding : EmbedError Failure → RouteError Failure
  endless : RouteError Failure

verified :
    {Failure : Type 0}
    → Uuid
    → Result InternalAuthError (Unit {0})
    → Result (RouteError Failure) Uuid
verified tenant_id (ok u) = ok tenant_id
verified tenant_id (err e) = err (unauthorized e)

unfoldable pub get_tenant_id :
    {Failure : Type 0} → Text → Text → Uuid → Result (RouteError Failure) Uuid
unfolding verified
get_tenant_id token expected tenant_id = verified tenant_id (verify_internal_token token expected)

abbrev pub embedded :
    {Failure A : Type 0} → Result (EmbedError Failure) A → Result (RouteError Failure) A
embedded (ok a) = ok a
embedded (err e) = err (embedding e)

pub record MemoryItemCreate (Metadata : Type 0) : Type 0 where
  pub content : Text
  pub memory_type : Text
  pub extra_metadata : Metadata
  pub retention_policy : Text

pub record MemorySearchRequest : Type 0 where
  pub query : Text
  pub top_k : ℤ
  pub memory_types : Option (List Text)

pub record MemorySearchResult (F Vector Time Metadata : Type 0) : Type 0 where
  pub item : MemoryItem Vector Time Metadata
  pub score : F
  pub similarity : F

pub record MemorySearchResponse (F Vector Time Metadata : Type 0) : Type 0 where
  pub results : List (MemorySearchResult F Vector Time Metadata)
  pub cache_hit : Bool
  pub latency_ms : ℕ

-- The tables, Redis, the services that are called, the stream memory.events, the latest first, and
-- the background tasks: the ids and the tenant whose access statistics are to be updated.
pub record State (Db World F Vector Time Metadata : Type 0) : Type 0 where
  pub tables : Tables Vector Time Metadata
  pub cache : Db
  pub world : World
  pub events : List (Event F)
  pub background : List (List Uuid × Uuid)

-- `uuid4 world` is the id drawn and `latency_ms world` the time that a search took; `round4` is `round(x, 4)`; `dumps` and `loads` are JSON.
pub record Service (Db World Vector Failure F Time Metadata : Type 0) : Type 1 where
  pub searcher : Searcher Db World Vector Failure F Time Metadata
  pub scans : Scan searcher.embedder.redis
  pub now : Time
  pub uuid4 : World → Uuid
  pub latency_ms : World → ℕ
  pub default_embedding_model : Text
  pub query_cache_ttl_seconds : ℕ
  pub round4 : F → F
  pub dumps : List (MemorySearchResult F Vector Time Metadata) → Text
  pub loads : Text → List (MemorySearchResult F Vector Time Metadata)
