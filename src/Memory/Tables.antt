-- ===== src/Memory/Tables.antt =====
-- services/memory-service/app/models/orm.py: the rows of memory_items and memory_summaries, and
-- the queries that the service leaves to PostgreSQL. `Vector` is an embedding, `Time` a timestamp,
-- `Metadata` a JSON document.
use sutram.Prelude.{ℕ, ◌≤◌, List, Bool, Text, All, length}
use sutram.Models.{Uuid}

pub record MemoryItem (Vector Time Metadata : Type 0) : Type 0 where
  pub id : Uuid
  pub tenant_id : Uuid
  pub memory_type : Text
  pub content : Text
  pub embedding : Vector
  pub embedding_model : Text
  pub extra_metadata : Metadata
  pub created_at : Time
  pub accessed_at : Time
  pub access_count : ℕ
  pub retention_policy : Text
  pub compressed : Bool

pub record MemorySummary (Vector Time : Type 0) : Type 0 where
  pub id : Uuid
  pub tenant_id : Uuid
  pub summary : Text
  pub original_ids : List Uuid
  pub embedding : Vector
  pub embedding_model : Text
  pub created_at : Time

pub record Tables (Vector Time Metadata : Type 0) : Type 0 where
  pub items : List (MemoryItem Vector Time Metadata)
  pub summaries : List (MemorySummary Vector Time)

-- SELECT DISTINCT of a column, in the order the database likes, and ORDER BY of an expression with
-- LIMIT, which an approximate index answers: the rows are among those asked for, no more than the
-- limit.
pub record Sql (F : Type 0) : Type 1 where
  pub distinct : List Text → List Text
  pub nearest : {Row : Type 0} → (Row → F) → ℕ → List Row → List Row
  pub distinct-All :
      (P : Text → Type 0) (values : List Text) → All P values → All P (distinct values)
  pub nearest-All :
      {Row : Type 0} (P : Row → Type 0) (key : Row → F) (limit : ℕ) (rows : List Row)
      → All P rows
      → All P (nearest key limit rows)
  pub nearest-length :
      {Row : Type 0} (key : Row → F) (limit : ℕ) (rows : List Row)
      → length (nearest key limit rows) ≤ limit
