-- ===== src/Memory/Routes.antt =====
-- services/memory-service/app/routes/memory.py: storing, reading and forgetting a memory. The
-- context of row-level security and failures of the database are left out; a commit ends each
-- request that returns.
pub mod Items
use sutram.Prelude.{
  ℕ, List, [], ◌∷◌, ◌++◌, map, length, filter, any, Bool, true, false, not, ◌&&◌, Option, none,
  some, Text, text_eq, codes, ltb, ◌==◌, ◌||◌, if◌then◌else◌, Result, ok, err, ◌+◌,
}
use sutram.Prelude.Program.{Program, pure, raise, gets, modify, continue, ◌>>=◌, ◌>>◌}
use sutram.Prelude.Slices.{ℤ}
use sutram.Models.{Uuid}
use sutram.Events.{Event, memory_written, memory_searched}
use sutram.Middleware.InternalAuth.{InternalAuthError, verify_internal_token}
use sutram.Embedding.{EmbedError}
use sutram.Memory.Embedder.{embed}
use sutram.Memory.Tables.{MemoryItem, Tables}
use sutram.Memory.Reranker.{ScoredCandidate}
use sutram.Memory.Searcher.{Searcher, search}
use sutram.Memory.QueryCache.{Scan, query_prefix, invalidate_query_cache}
use sutram.Memory.Schemas.{
  embedded, RouteError, not_found, embedding, endless, MemoryItemCreate, MemorySearchRequest,
  MemorySearchResult, MemorySearchResponse, State, Service,
}

module _ {Vector Time Metadata : Type 0} where
  is_item : Uuid → Uuid → MemoryItem Vector Time Metadata → Bool
  is_item item_id tenant_id item = text_eq item.id item_id && text_eq item.tenant_id tenant_id

  -- `scalar_one_or_none()` on the rows of a query: ids are unique.
  first_row : List (MemoryItem Vector Time Metadata) → Option (MemoryItem Vector Time Metadata)
  first_row [] = none
  first_row (item ∷ items) = some item

  unfoldable pub find_item :
      Uuid
      → Uuid
      → List (MemoryItem Vector Time Metadata)
      → Option (MemoryItem Vector Time Metadata)
  unfolding is_item first_row
  find_item item_id tenant_id items = first_row (filter (is_item item_id tenant_id) items)

  -- The flush of a deleted row, by its primary key.
  unfoldable pub delete_item :
      Uuid → List (MemoryItem Vector Time Metadata) → List (MemoryItem Vector Time Metadata)
  delete_item item_id items = filter (λ item. not (text_eq item.id item_id)) items

module _ {Db World Vector Failure F Time Metadata : Type 0}
    (service : Service Db World Vector Failure F Time Metadata) where
  abbrev pub Route : Type 0 → Type 0
  Route = Program (RouteError Failure) (State Db World F Vector Time Metadata)

  embed_content : Text → Route Vector
  embed_content content s =
      let (answer, (cache, world)) =
        embed service.searcher.embedder content service.default_embedding_model
          (s.cache, s.world) in
      (embedded answer, record s { cache = cache; world = world })

  invalidated : Option Db → Route (Unit {0})
  invalidated none s = (err endless, s)
  invalidated (some d) s = (ok tt, record s { cache = d })

  invalidate : Uuid → Route (Unit {0})
  unfolding invalidated
  invalidate tenant_id s =
      invalidated
        (invalidate_query_cache service.searcher.embedder.redis service.scans tenant_id s.cache) s

  unfoldable pub publish : Event F → Route (Unit {0})
  publish event = modify (λ s. record s { events = event ∷ s.events })

  -- The row that `store_memory` makes, with the defaults of the table.
  new_item : MemoryItemCreate Metadata → Uuid → Uuid → Vector → MemoryItem Vector Time Metadata
  new_item body item_id tenant_id vector = record {
    id = item_id;
    tenant_id = tenant_id;
    memory_type = body.memory_type;
    content = body.content;
    embedding = vector;
    embedding_model = service.default_embedding_model;
    extra_metadata = body.extra_metadata;
    created_at = service.now;
    accessed_at = service.now;
    access_count = 0;
    retention_policy = body.retention_policy;
    compressed = false;
  }

  add_item :
      MemoryItem Vector Time Metadata → Tables Vector Time Metadata → Tables Vector Time Metadata
  add_item item tables = record tables { items = item ∷ tables.items }

  unfoldable pub store_memory :
      MemoryItemCreate Metadata → Uuid → Route (MemoryItem Vector Time Metadata)
  unfolding embed_content invalidate publish new_item add_item
  store_memory body tenant_id = embed_content body.content >>= λ vector.
      gets (λ s. service.uuid4 s.world) >>= λ item_id.
      modify (λ s. record s { tables = add_item (new_item body item_id tenant_id vector) s.tables })
      >> invalidate tenant_id
      >> publish (
          memory_written (record {
            tenant_id = tenant_id;
            memory_item_id = item_id;
            memory_type = body.memory_type;
          }))
      >> pure (new_item body item_id tenant_id vector)

  on_item :
      {A : Type 0}
      → (MemoryItem Vector Time Metadata → Route A)
      → Option (MemoryItem Vector Time Metadata)
      → Route A
  on_item f none = raise not_found
  on_item f (some item) = f item

  unfoldable pub get_memory_item : Uuid → Uuid → Route (MemoryItem Vector Time Metadata)
  unfolding on_item
  get_memory_item item_id tenant_id s = on_item pure (find_item item_id tenant_id s.tables.items) s

  delete_row :
      MemoryItem Vector Time Metadata → Tables Vector Time Metadata → Tables Vector Time Metadata
  delete_row item tables = record tables { items = delete_item item.id tables.items }

  unfoldable pub forget_memory : Uuid → Uuid → Route (Unit {0})
  unfolding on_item delete_row invalidate
  forget_memory item_id tenant_id s =
      on_item
        (λ item.
          modify (λ s. record s { tables = delete_row item s.tables }) >> invalidate tenant_id)
        (find_item item_id tenant_id s.tables.items) s

  -- `_update_access_stats_bg`, in a session of its own.
  touch : List Uuid → Uuid → MemoryItem Vector Time Metadata → MemoryItem Vector Time Metadata
  touch item_ids tenant_id item =
      if any (text_eq item.id) item_ids && text_eq item.tenant_id tenant_id
      then record item { accessed_at = service.now; access_count = item.access_count + 1 }
      else item

  unfoldable pub update_access_stats :
      List Uuid → Uuid → Tables Vector Time Metadata → Tables Vector Time Metadata
  unfolding touch
  update_access_stats item_ids tenant_id tables = record tables {
    items = map (touch item_ids tenant_id) tables.items;
  }
