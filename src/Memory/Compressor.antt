-- ===== src/Memory/Compressor.antt =====
-- services/memory-service/app/compression/compressor.py and compression/archiver.py: one pass that
-- replaces a tenant's old memories by a summary. The language model, S3, the clock and the formats
-- of JSON and of dates are parameters; creating the client of S3 is taken not to raise.
pub mod Marks
pub mod Progress
pub mod Success
use sutram.Prelude.{
  leb, ℕ, List, [], ◌∷◌, ◌++◌, map, length, Bool, true, false, not, ◌&&◌, Text, text_eq, codes,
  filter, any, if◌then◌else◌, Result, ok, err, String,
}
use sutram.Prelude.Program.{Program, pure, raise, gets, modify, continue, ◌>>=◌, ◌>>◌}
use sutram.Models.{Uuid}
use sutram.Embedding.{EmbedError, failure}
use sutram.Memory.Embedder.{Embedder, embed, first}
use sutram.Memory.Tables.{MemoryItem, MemorySummary, Tables, Sql}

-- The tables of the session, Redis, the services that are called, and the objects in S3.
pub record Job (Db World Store Vector Time Metadata : Type 0) : Type 0 where
  pub tables : Tables Vector Time Metadata
  pub cache : Db
  pub world : World
  pub store : Store

-- The JSON that is posted to the language model, and the answer: its status, and the content of
-- the message of each choice.
pub record ChatRequest : Type 0 where
  pub model : Text
  pub system : Text
  pub user : Text
  pub max_tokens : ℕ

pub record ChatResponse : Type 0 where
  pub status : ℕ
  pub contents : List Text

-- The settings and what the job calls. `put_object key body` may fail; `archive_body` is the JSON
-- document of an archive; `uuid4 world` is the id drawn for a summary; `chat` posts a request with
-- the API key; `statement` and `commit` say whether a statement of the session and its commit raise.
pub record Compressor (Db World Store Vector Time Metadata Failure : Type 0) : Type 1 where
  pub embedder : Embedder Db World Vector Failure
  pub sql : Sql Time
  pub before : Time → Time → Bool
  pub now : Time
  pub threshold : Time
  pub batch_size : ℕ
  pub default_embedding_model : Text
  pub chat : ChatRequest → Program (EmbedError Failure) World ChatResponse
  pub http_status_error : ℕ → Failure
  pub compression_llm_model : Text
  pub uuid4 : World → Uuid
  pub s3_prefix : Text
  pub year_and_month : Time → Text
  pub archive_body : Uuid → Uuid → Time → List (MemoryItem Vector Time Metadata) → Text
  pub put_object : Text → Text → Program (EmbedError Failure) Store (Unit {0})
  pub statement : Program (EmbedError Failure) World (Unit {0})
  pub commit : Program (EmbedError Failure) World (Unit {0})

-- `"\n\n---\n\n".join(f"[{item.memory_type}] {item.content}" for item in items)`
unfoldable pub combine :
    {Vector Time Metadata : Type 0} → List (MemoryItem Vector Time Metadata) → Text
combine [] = []
combine (item ∷ []) = codes "[" ++ (item.memory_type ++ (codes "] " ++ item.content))
combine (item ∷ next ∷ items) =
    codes "["
    ++ (item.memory_type
        ++ (codes "] " ++ (item.content ++ (codes "\n\n---\n\n" ++ combine (next ∷ items)))))

module _ {Db World Store Vector Time Metadata Failure : Type 0}
    (service : Compressor Db World Store Vector Time Metadata Failure) where
  -- The WHERE clause of the query for one tenant, and the one of the query for all tenants.
  unfoldable pub is_due : MemoryItem Vector Time Metadata → Bool
  is_due item =
      not item.compressed
      && (service.before item.created_at service.threshold
          && not (text_eq item.retention_policy (codes "forever")))

  unfoldable pub is_due_of : Uuid → MemoryItem Vector Time Metadata → Bool
  is_due_of tenant_id item = text_eq item.tenant_id tenant_id && is_due item

  unfoldable pub due_items :
      Uuid → List (MemoryItem Vector Time Metadata) → List (MemoryItem Vector Time Metadata)
  unfolding is_due_of
  due_items tenant_id items =
      service.sql.nearest (λ item. item.created_at) service.batch_size
        (filter (is_due_of tenant_id) items)

  unfoldable pub chat_request : Text → ChatRequest
  chat_request content = record {
    model = service.compression_llm_model;
    system =
        codes
          "Summarize the following memories concisely, preserving key facts, decisions, and patterns.";
    user = content;
    max_tokens = 500;
  }

  -- `raise_for_status`, and the content of the first choice.
  unfoldable pub chat_answer :
      Result (EmbedError Failure) ChatResponse → Result (EmbedError Failure) Text
  unfolding first
  chat_answer (err e) = err e
  chat_answer (ok response) =
      if leb 200 response.status && leb response.status 299
      then first (ok response.contents)
      else err (failure (service.http_status_error response.status))

  -- `_summarize`.
  summarize : Text → Program (EmbedError Failure) (Job Db World Store Vector Time Metadata) Text
  unfolding chat_request chat_answer
  summarize content s =
      let (answer, world) = service.chat (chat_request content) s.world in
      (chat_answer answer, record s { world = world })

  embed_summary :
      Text → Program (EmbedError Failure) (Job Db World Store Vector Time Metadata) Vector
  embed_summary content s =
      let (answer, (cache, world)) =
        embed service.embedder content service.default_embedding_model (s.cache, s.world) in
      (answer, record s { cache = cache; world = world })

  -- `archive_items`, whose exceptions are only logged.
  unfoldable pub archive_key : Uuid → Uuid → Text
  archive_key tenant_id summary_id =
      service.s3_prefix
      ++ (codes "/"
          ++ (tenant_id
              ++ (codes "/"
                  ++ (service.year_and_month service.now
                      ++ (codes "/" ++ (summary_id ++ codes ".json"))))))

  archive_items :
      Uuid
      → Uuid
      → List (MemoryItem Vector Time Metadata)
      → Program (EmbedError Failure) (Job Db World Store Vector Time Metadata) (Unit {0})
  unfolding archive_key
  archive_items tenant_id summary_id items s =
      let (answer, store) =
        service.put_object (archive_key tenant_id summary_id)
          (service.archive_body tenant_id summary_id service.now items) s.store in
      (ok tt, record s { store = store })

  unfoldable pub new_summary :
      Uuid
      → Uuid
      → Text
      → Vector
      → List (MemoryItem Vector Time Metadata)
      → MemorySummary Vector Time
  new_summary tenant_id summary_id content vector items = record {
    id = summary_id;
    tenant_id = tenant_id;
    summary = content;
    original_ids = map (λ item. item.id) items;
    embedding = vector;
    embedding_model = service.default_embedding_model;
    created_at = service.now;
  }

  unfoldable pub add_summary :
      MemorySummary Vector Time → Tables Vector Time Metadata → Tables Vector Time Metadata
  add_summary summary tables = record tables { summaries = summary ∷ tables.summaries }

  -- `update(MemoryItemORM).where(id.in_(ids)).values(compressed=True)`
  unfoldable pub mark_one :
      List Uuid → MemoryItem Vector Time Metadata → MemoryItem Vector Time Metadata
  mark_one ids item = if any (text_eq item.id) ids then record item { compressed = true } else item

  unfoldable pub mark : List Uuid → Tables Vector Time Metadata → Tables Vector Time Metadata
  mark ids tables = record tables { items = map (mark_one ids) tables.items }

  -- Whether the next statements of the session go through.
  abbrev pub run_statement :
      Program (EmbedError Failure) (Job Db World Store Vector Time Metadata) (Unit {0})
  run_statement s =
      ((service.statement s.world).0, record s { world = (service.statement s.world).1 })

  -- The steps of `compress_tenant` for the items that the query found.
  compress_items :
      Uuid
      → List (MemoryItem Vector Time Metadata)
      → Program (EmbedError Failure) (Job Db World Store Vector Time Metadata) ℕ
  unfolding summarize embed_summary archive_items new_summary add_summary mark mark_one
  compress_items tenant_id [] = pure 0
  compress_items tenant_id (item ∷ items) = summarize (combine (item ∷ items)) >>= λ content.
      embed_summary content >>= λ vector. gets (λ s. service.uuid4 s.world) >>= λ summary_id.
      modify (λ s. record s {
        tables =
            add_summary (new_summary tenant_id summary_id content vector (item ∷ items)) s.tables;
      })
      >> archive_items tenant_id summary_id (item ∷ items)
      >> run_statement
      >> modify (λ s. record s { tables = mark (map (λ i. i.id) (item ∷ items)) s.tables })
      >> run_statement
      >> pure (length (item ∷ items))

  unfoldable pub compress_tenant :
      Uuid → Program (EmbedError Failure) (Job Db World Store Vector Time Metadata) ℕ
  unfolding due_items compress_items
  compress_tenant tenant_id =
      run_statement >> (λ s. compress_items tenant_id (due_items tenant_id s.tables.items) s)
