-- ===== src/Memory/Compressor/Success.antt =====
-- services/memory-service/app/compression/compressor.py: a pass whose services answer.
use sutram.Prelude.{
  min, filter, false, ◌⊎◌, ◌≡◌, refl, List, [], ◌∷◌, map, length, true, Text, text_eq, any, All, ok,
  Bool-cases, inl, inr,
}
use sutram.Models.{Uuid}
use sutram.Memory.Embedder.{embed}
use sutram.Memory.Tables.{MemoryItem, MemorySummary}
use sutram.Memory.Compressor.Marks.{Zip, due_items-All}
use mathlib.Core.List.{Memᴰ}
use sutram.Memory.Compressor.{
  is_due, is_due_of, Compressor, Job, due_items, mark_one, mark, summarize, embed_summary,
  archive_items, add_summary, new_summary, compress_items, compress_tenant, combine, chat_request,
  chat_answer,
}

module _ {Db World Store Vector Time Metadata Failure : Type 0}
    (service : Compressor Db World Store Vector Time Metadata Failure) where
  -- What becomes of a row: it is marked if its id is one of the chosen, and else as it was.
  unfoldable pub IsMarked :
      List (MemoryItem Vector Time Metadata)
      → MemoryItem Vector Time Metadata
      → MemoryItem Vector Time Metadata
      → Type 0
  IsMarked chosen a b =
      (any (text_eq a.id) (map (λ i. i.id) chosen) ≡ true) × (b ≡ record a { compressed = true })
      ⊎ (any (text_eq a.id) (map (λ i. i.id) chosen) ≡ false) × (b ≡ a)

  -- The summaries afterwards: one more, of the chosen items, if there are any.
  unfoldable pub IsSummarised :
      Uuid
      → List (MemoryItem Vector Time Metadata)
      → List (MemorySummary Vector Time)
      → List (MemorySummary Vector Time)
      → Type 0
  IsSummarised tenant_id [] old new = new ≡ old
  IsSummarised tenant_id (item ∷ items) old new =
      (summary : MemorySummary Vector Time) × (new ≡ summary ∷ old)
      × (summary.tenant_id ≡ tenant_id)
      × (summary.original_ids ≡ map (λ i. i.id) (item ∷ items))

  mark_one-Zip :
      (chosen items : List (MemoryItem Vector Time Metadata))
      → Zip (IsMarked chosen) items (map (mark_one service (map (λ i. i.id) chosen)) items)
  unfolding mark_one IsMarked
  mark_one-Zip chosen [] = Zip.nil
  mark_one-Zip chosen (i ∷ items) =
      let rest = mark_one-Zip chosen items in
      elim (Bool-cases (any (text_eq i.id) (map (λ x. x.id) chosen))) [
        | inl e ↦ rw e (Zip.cons (inl (e, refl)) rest)
        | inr e ↦ rw e (Zip.cons (inr (e, refl)) rest)
      ]

  Zip-nil : (items : List (MemoryItem Vector Time Metadata)) → Zip (IsMarked []) items items
  unfolding IsMarked
  Zip-nil [] = Zip.nil
  Zip-nil (i ∷ items) = Zip.cons (inr (refl, refl)) (Zip-nil items)

  module _
      (talks : (text : Text) (w : World)
        → (content : Text) × (chat_answer service (service.chat (chat_request service text) w).0
            ≡ ok content))
      (embeds : (text : Text) (c : Db × World)
        → (vector : Vector) × ((embed service.embedder text service.default_embedding_model c).0
            ≡ ok vector))
      (works : (w : World) → (service.statement w).0 ≡ ok tt) where
    compress_items-done :
        (tenant_id : Uuid) (chosen : List (MemoryItem Vector Time Metadata))
        (s : Job Db World Store Vector Time Metadata)
        → ((compress_items service tenant_id chosen s).0 ≡ ok (length chosen))
          × Zip
              (IsMarked chosen)
              s.tables.items
              (compress_items service tenant_id chosen s).1.tables.items
          × IsSummarised tenant_id chosen s.tables.summaries
              (compress_items service tenant_id chosen s).1.tables.summaries
    unfolding compress_items summarize embed_summary archive_items mark add_summary new_summary
        IsSummarised
    compress_items-done tenant_id [] s = (refl, Zip-nil s.tables.items, refl)
    compress_items-done tenant_id (item ∷ items) s =
        let (content, e) = talks (combine (item ∷ items)) s.world in
        let (vector, f) =
          embeds content
            (s.cache, (service.chat (chat_request service (combine (item ∷ items))) s.world).1) in
        rw e (
          rw f (
            rw works
              (rw works (refl, mark_one-Zip (item ∷ items) s.tables.items, (_, refl, refl, refl)))))

  -- Where the language model answers with a success and a choice, the embedder with the default
  -- model, and no statement of the session fails, where ORDER BY with LIMIT gives a whole batch if
  -- there is one, and whether or not S3 answers: a pass over a tenant returns the number of its due
  -- items, but at most a batch, and chooses as many of them. Afterwards each row with the id of one
  -- of these is there and marked compressed, every other row is as it was, and there is one more
  -- summary of the tenant, which lists the ids of the chosen items, if there are any.
  pub compress_tenant-marks :
      (tenant_id : Uuid) (s : Job Db World Store Vector Time Metadata)
      → ((text : Text) (w : World)
          → (content : Text) × (chat_answer service (service.chat (chat_request service text) w).0
              ≡ ok content))
      → ((text : Text) (c : Db × World)
          → (vector : Vector) × ((embed service.embedder text service.default_embedding_model c).0
              ≡ ok vector))
      → ((w : World) → (service.statement w).0 ≡ ok tt)
      → ((rows : List (MemoryItem Vector Time Metadata))
          → length (service.sql.nearest (λ item. item.created_at) service.batch_size rows)
            ≡ min service.batch_size (length rows))
      → (chosen : List (MemoryItem Vector Time Metadata)) × All
          (λ i. Memᴰ i s.tables.items × (i.tenant_id ≡ tenant_id) × (is_due service i ≡ true))
          chosen
        × (length chosen
            ≡ min service.batch_size (length (filter (is_due_of service tenant_id) s.tables.items)))
        × ((compress_tenant service tenant_id s).0 ≡ ok (length chosen))
        × Zip (IsMarked chosen) s.tables.items (compress_tenant service tenant_id s).1.tables.items
        × IsSummarised tenant_id chosen s.tables.summaries
            (compress_tenant service tenant_id s).1.tables.summaries
  unfolding compress_tenant due_items
  compress_tenant-marks tenant_id s talks embeds works exact =
      let chosen = due_items service tenant_id s.tables.items in
      let done =
        compress_items-done talks embeds works tenant_id chosen
          (record s { world = (service.statement s.world).1 }) in
      (
        chosen,
        due_items-All service tenant_id s.tables.items,
        exact (filter (is_due_of service tenant_id) s.tables.items),
        rw works done.0,
        rw works done.1,
        rw works done.2,
      )
