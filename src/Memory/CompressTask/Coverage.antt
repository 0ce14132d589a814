-- ===== src/Memory/CompressTask/Coverage.antt =====
-- services/memory-service/app/tasks/compress.py: what the whole task may change.
use sutram.Prelude.{List, [], ◌∷◌, map, Result-cases, inl, inr}
use sutram.Prelude.Strings.{IsDistinct}
use sutram.Models.{Uuid}
use sutram.Memory.Compressor.{Compressor, Job, compress_tenant}
use sutram.Memory.Compressor.Progress.{
  IsProgress, IsProgress-refl, IsProgress-trans, IsProgress-ids, compress_tenant-IsProgress,
}
use sutram.Memory.CompressTask.{end_session, tenants_due, compress_tenants, compress_all, committed}
use mathlib.Core.Path.{subst}

module _ {Db World Store Vector Time Metadata Failure : Type 0}
    (service : Compressor Db World Store Vector Time Metadata Failure) where
  end_session-IsProgress :
      (tenant_id : Uuid) (s : Job Db World Store Vector Time Metadata)
      → IsDistinct (map (λ i. i.id) s.tables.items)
      → IsProgress service s.tables
          (end_session service s.tables (compress_tenant service tenant_id s)).tables
  unfolding end_session committed
  end_session-IsProgress tenant_id s d =
      elim (Result-cases (compress_tenant service tenant_id s).0) [
        | inl (n, e) ↦
            let done = compress_tenant-IsProgress service tenant_id s n d e in
            elim (Result-cases (service.commit (compress_tenant service tenant_id s).1.world).0) [
              | inl (u, f) ↦ rw e (rw f done)
              | inr (x, f) ↦ rw e (rw f (IsProgress-refl service s.tables))
            ]
        | inr (x, e) ↦ rw e (IsProgress-refl service s.tables)
      ]

  compress_tenants-IsProgress :
      (tenant_ids : List Uuid) (s : Job Db World Store Vector Time Metadata)
      → IsDistinct (map (λ i. i.id) s.tables.items)
      → IsProgress service s.tables (compress_tenants service tenant_ids s).tables
  unfolding compress_tenants
  compress_tenants-IsProgress [] s d = IsProgress-refl service s.tables
  compress_tenants-IsProgress (tenant_id ∷ tenant_ids) s d =
      let next = end_session service s.tables (compress_tenant service tenant_id s) in
      let one = end_session-IsProgress tenant_id s d in
      let d' = subst (λ l. IsDistinct l) (IsProgress-ids service s.tables next.tables one) d in
      IsProgress-trans service s.tables next.tables _ one
        (compress_tenants-IsProgress tenant_ids next d')

  -- Where the ids of the items are distinct, and whatever fails in the sessions of the tenants,
  -- after the task each item is as it was, or it was due and differs only in being marked
  -- compressed, and a summary of its tenant that is in the table lists its id. No summary is lost.
  pub compress_all-IsProgress :
      (s : Job Db World Store Vector Time Metadata)
      → IsDistinct (map (λ i. i.id) s.tables.items)
      → IsProgress service s.tables (compress_all service s).tables
  unfolding compress_all
  compress_all-IsProgress s d = compress_tenants-IsProgress (tenants_due service s.tables) s d
