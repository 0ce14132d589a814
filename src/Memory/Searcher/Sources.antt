-- ===== src/Memory/Searcher/Sources.antt =====
-- services/memory-service/app/retrieval/searcher.py: where the results of a search come from.
use sutram.Prelude.{
  ◌≡◌, List, true, false, Text, text_eq, text_eq_iff, any, All, All-map, All-Memᴰ, All-filter,
  All-of_map, ◌⊎◌, inl, inr, arith,
}
use sutram.Models.{Uuid}
use sutram.Memory.Reranker.{CandidateRow}
use sutram.Memory.Tables.{MemoryItem, MemorySummary, Tables}
use sutram.Memory.Searcher.{
  Searcher, is_wanted, is_active, is_summary_of, item_candidate, summary_candidate, item_rows,
  summary_rows,
}
use mathlib.Core.List.{Memᴰ}

module _ {Db World Vector Failure F Time Metadata : Type 0}
    (service : Searcher Db World Vector Failure F Time Metadata)
    (tables : Tables Vector Time Metadata) (query : Text) (tenant_id : Uuid)
    (oracle : Text → Vector) where
  -- A candidate is an uncompressed item of the tenant, of one of the types, or a summary of the
  -- tenant, compared with the vector that its own embedding model gives the query.
  unfoldable pub IsItemOf : List Text → CandidateRow F Time Metadata → Type 0
  IsItemOf types c =
      (item : MemoryItem Vector Time Metadata) × Memᴰ item tables.items
      × (item.tenant_id ≡ tenant_id)
      × (item.compressed ≡ false)
      × (any (text_eq item.memory_type) types ≡ true)
      × (c ≡ item_candidate service (oracle item.embedding_model) item)

  unfoldable pub IsSummaryOf : CandidateRow F Time Metadata → Type 0
  IsSummaryOf c =
      (summary : MemorySummary Vector Time) × Memᴰ summary tables.summaries
      × (summary.tenant_id ≡ tenant_id)
      × (c ≡ summary_candidate service (oracle summary.embedding_model) summary)

  abbrev pub IsFound : List Text → CandidateRow F Time Metadata → Type 0
  IsFound types c = IsItemOf types c ⊎ IsSummaryOf c

  wanted-IsFound :
      (types : List Text) (model : Text) (item : MemoryItem Vector Time Metadata)
      → Memᴰ item tables.items
      → is_wanted tenant_id types model item ≡ true
      → IsFound types (item_candidate service (oracle model) item)
  unfolding is_wanted is_active IsItemOf
  wanted-IsFound types model item m w =
      let same : item.embedding_model ≡ model =
        (text_eq_iff item.embedding_model model).0 (ground (arith, w)) in
      inl (
        item,
        m,
        (text_eq_iff item.tenant_id tenant_id).0 (ground (arith, w)),
        ground (arith, w),
        ground (arith, w),
        cc same,
      )

  summary-IsFound :
      (types : List Text) (model : Text) (summary : MemorySummary Vector Time)
      → Memᴰ summary tables.summaries
      → is_summary_of tenant_id model summary ≡ true
      → IsFound types (summary_candidate service (oracle model) summary)
  unfolding is_summary_of IsSummaryOf
  summary-IsFound types model summary m w =
      let same : summary.embedding_model ≡ model =
        (text_eq_iff summary.embedding_model model).0 (ground (arith, w)) in
      inr (summary, m, (text_eq_iff summary.tenant_id tenant_id).0 (ground (arith, w)), cc same)

  pub item_rows-IsFound :
      (types : List Text) (model : Text)
      → All (IsFound types) (item_rows service tables query tenant_id types model (oracle model))
  unfolding item_rows
  item_rows-IsFound types model = All-of_map _ _ _ (
      service.sql.nearest-All _ _ _ _ (
        All-map _ (λ item (m, w). wanted-IsFound types model item m w)
          (All-filter _ (is_wanted tenant_id types model) tables.items (All-Memᴰ tables.items))))

  pub summary_rows-IsFound :
      (types : List Text) (model : Text)
      → All (IsFound types) (summary_rows service tables query tenant_id model (oracle model))
  unfolding summary_rows
  summary_rows-IsFound types model = All-of_map _ _ _ (
      service.sql.nearest-All _ _ _ _ (
        All-map _ (λ summary (m, w). summary-IsFound types model summary m w)
          (All-filter _ (is_summary_of tenant_id model) tables.summaries
            (All-Memᴰ tables.summaries))))
