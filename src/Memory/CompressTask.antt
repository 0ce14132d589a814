-- ===== src/Memory/CompressTask.antt =====
-- services/memory-service/app/tasks/compress.py: the daily task, one session per tenant. The clock
-- is read once.
pub mod Coverage
use sutram.Prelude.{ℕ, List, [], ◌∷◌, map, filter, Result, ok, err}
use sutram.Models.{Uuid}
use sutram.Embedding.{EmbedError}
use sutram.Memory.Tables.{Tables}
use sutram.Memory.Compressor.{Compressor, Job, is_due, compress_tenant}

module _ {Db World Store Vector Time Metadata Failure : Type 0}
    (service : Compressor Db World Store Vector Time Metadata Failure) where
  -- The end of a session: a commit, or a rollback after an exception, which is logged, of the code or
  -- of the commit.
  committed :
      Tables Vector Time Metadata
      → Result (EmbedError Failure) (Unit {0}) × World
      → Job Db World Store Vector Time Metadata
      → Job Db World Store Vector Time Metadata
  committed tables (ok u, world) s = record s { world = world }
  committed tables (err e, world) s = record s { tables = tables; world = world }

  unfoldable pub end_session :
      Tables Vector Time Metadata
      → Result (EmbedError Failure) ℕ × Job Db World Store Vector Time Metadata
      → Job Db World Store Vector Time Metadata
  unfolding committed
  end_session tables (ok count, s) = committed tables (service.commit s.world) s
  end_session tables (err e, s) = record s { tables = tables }

  unfoldable pub tenants_due : Tables Vector Time Metadata → List Uuid
  tenants_due tables =
      service.sql.distinct (map (λ item. item.tenant_id) (filter (is_due service) tables.items))

  unfoldable pub compress_tenants :
      List Uuid → Job Db World Store Vector Time Metadata → Job Db World Store Vector Time Metadata
  unfolding end_session
  compress_tenants [] s = s
  compress_tenants (tenant_id ∷ tenant_ids) s =
      compress_tenants tenant_ids (end_session s.tables (compress_tenant service tenant_id s))

  unfoldable pub compress_all :
      Job Db World Store Vector Time Metadata → Job Db World Store Vector Time Metadata
  unfolding compress_tenants tenants_due
  compress_all s = compress_tenants (tenants_due s.tables) s
