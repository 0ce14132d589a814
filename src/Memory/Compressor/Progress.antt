-- ===== src/Memory/Compressor/Progress.antt =====
-- services/memory-service/app/compression/compressor.py: what a pass over a tenant may change.
use sutram.Prelude.{
  ℕ, ◌≡◌, refl, sym, ap, ◌∙◌, List, [], ◌∷◌, map, true, Text, All, All-Memᴰ, inl, inr, arith, ok,
  Result-cases, any, ◌⊎◌, text_eq, Bool-cases,
}
use sutram.Prelude.Strings.{IsDistinct}
use sutram.Models.{Uuid}
use sutram.Memory.Embedder.{embed}
use sutram.Memory.Tables.{MemoryItem, MemorySummary, Tables}
use sutram.Memory.Compressor.{
  Compressor, Job, is_due, due_items, mark, summarize, embed_summary, archive_items, new_summary,
  add_summary, compress_items, compress_tenant, combine, chat_request, chat_answer, mark_one,
}
use sutram.Memory.Compressor.Marks.{Zip, Zip-refl, IsCovered, IsChange, due_items-All, mark-Zip}
use mathlib.Core.List.{Memᴰ}
use mathlib.Core.Path.{subst}

module _ {Db World Store Vector Time Metadata Failure : Type 0}
    (service : Compressor Db World Store Vector Time Metadata Failure) where
  -- Every row whose id a summary lists is marked.
  unfoldable pub IsSettled :
      List (MemoryItem Vector Time Metadata) → MemorySummary Vector Time → Type 0
  IsSettled items summary =
      All (λ i. any (text_eq i.id) summary.original_ids ≡ true → i.compressed ≡ true) items

  -- The tables after a part of the task: every item is as it was or has become marked under a
  -- summary, no summary is gone, and of a summary that is new all items are marked.
  unfoldable pub IsProgress : Tables Vector Time Metadata → Tables Vector Time Metadata → Type 0
  IsProgress t u =
      Zip (IsChange service u.summaries) t.items u.items
      × ((summary : MemorySummary Vector Time)
          → Memᴰ summary t.summaries
          → Memᴰ summary u.summaries)
      × ((summary : MemorySummary Vector Time)
          → Memᴰ summary u.summaries
          → Memᴰ summary t.summaries ⊎ IsSettled u.items summary)

  pub IsProgress-refl : (t : Tables Vector Time Metadata) → IsProgress t t
  unfolding IsProgress
  IsProgress-refl t = (Zip-refl service t.summaries t.items, λ s m. m, λ s m. inl m)

  IsSettled-later :
      (l : List (MemorySummary Vector Time)) (summary : MemorySummary Vector Time)
      (xs ys : List (MemoryItem Vector Time Metadata))
      → Zip (IsChange service l) xs ys
      → IsSettled xs summary
      → IsSettled ys summary
  unfolding IsSettled IsChange
  IsSettled-later l summary [] [] Zip.nil h = tt
  IsSettled-later l summary [] (y ∷ ys) p h = elim p [ ]
  IsSettled-later l summary (x ∷ xs) [] p h = elim p [ ]
  IsSettled-later l summary (x ∷ xs) (y ∷ ys) (Zip.cons (inl e) ps) h = (
    subst (λ i. any (text_eq i.id) summary.original_ids ≡ true → i.compressed ≡ true) e h.0,
    IsSettled-later l summary xs ys ps h.1,
  )
  IsSettled-later l summary (x ∷ xs) (y ∷ ys) (Zip.cons (inr (due, e, cov)) ps) h =
      ((λ k. ap (λ i. i.compressed) e), IsSettled-later l summary xs ys ps h.1)

  IsCovered-more :
      (l r : List (MemorySummary Vector Time)) (a : MemoryItem Vector Time Metadata)
      → ((summary : MemorySummary Vector Time) → Memᴰ summary l → Memᴰ summary r)
      → IsCovered service l a
      → IsCovered service r a
  unfolding IsCovered
  IsCovered-more l r a more (summary, m, t, o) = (summary, more summary m, t, o)

  IsChange-trans :
      (l r : List (MemorySummary Vector Time)) (a b c : MemoryItem Vector Time Metadata)
      → ((summary : MemorySummary Vector Time) → Memᴰ summary l → Memᴰ summary r)
      → IsChange service l a b
      → IsChange service r b c
      → IsChange service r a c
  unfolding IsChange is_due
  IsChange-trans l r a b c more (inl e) g = subst (λ x. IsChange service r x c) (sym e) g
  IsChange-trans l r a b c more (inr (due, e, cov)) (inl f) =
      inr (due, sym f ∙ e, IsCovered-more l r a more cov)
  IsChange-trans l r a b c more (inr (due, e, cov)) (inr (due', f, cov')) =
      let marked : b.compressed ≡ true = ap (λ x. x.compressed) e in ground (arith, marked, due')

  Zip-trans :
      (l r : List (MemorySummary Vector Time)) (xs ys zs : List (MemoryItem Vector Time Metadata))
      → ((summary : MemorySummary Vector Time) → Memᴰ summary l → Memᴰ summary r)
      → Zip (IsChange service l) xs ys
      → Zip (IsChange service r) ys zs
      → Zip (IsChange service r) xs zs
  Zip-trans l r [] [] zs more Zip.nil q = q
  Zip-trans l r [] (y ∷ ys) zs more p q = elim p [ ]
  Zip-trans l r (x ∷ xs) [] zs more p q = elim p [ ]
  Zip-trans l r (x ∷ xs) (y ∷ ys) [] more p q = elim q [ ]
  Zip-trans l r (x ∷ xs) (y ∷ ys) (z ∷ zs) more (Zip.cons p ps) (Zip.cons q qs) =
      Zip.cons (IsChange-trans l r x y z more p q) (Zip-trans l r xs ys zs more ps qs)

  pub IsProgress-trans :
      (t u v : Tables Vector Time Metadata) → IsProgress t u → IsProgress u v → IsProgress t v
  unfolding IsProgress
  IsProgress-trans t u v (p, k, n) (q, l, o) = (
    Zip-trans u.summaries v.summaries t.items u.items v.items l p q,
    λ s m. l s (k s m),
    λ s m. elim (o s m) [
      | inl before ↦ elim (n s before) [
        | inl first ↦ inl first
        | inr done ↦ inr (IsSettled-later v.summaries s u.items v.items q done)
      ]
      | inr done ↦ inr done
    ],
  )

  pub Zip-ids :
      (l : List (MemorySummary Vector Time)) (xs ys : List (MemoryItem Vector Time Metadata))
      → Zip (IsChange service l) xs ys
      → map (λ i. i.id) xs ≡ map (λ i. i.id) ys
  unfolding IsChange
  Zip-ids l [] [] Zip.nil = refl
  Zip-ids l [] (y ∷ ys) p = elim p [ ]
  Zip-ids l (x ∷ xs) [] p = elim p [ ]
  Zip-ids l (x ∷ xs) (y ∷ ys) (Zip.cons (inl e) ps) = cc (e, Zip-ids l xs ys ps)
  Zip-ids l (x ∷ xs) (y ∷ ys) (Zip.cons (inr (due, e, cov)) ps) =
      let same : y.id ≡ x.id = ap (λ i. i.id) e in cc (same, Zip-ids l xs ys ps)

  pub IsProgress-ids :
      (t u : Tables Vector Time Metadata)
      → IsProgress t u
      → map (λ i. i.id) t.items ≡ map (λ i. i.id) u.items
  unfolding IsProgress
  IsProgress-ids t u (p, k, n) = Zip-ids u.summaries t.items u.items p

  mark-IsSettled :
      (summary : MemorySummary Vector Time) (items : List (MemoryItem Vector Time Metadata))
      → IsSettled (map (mark_one service summary.original_ids) items) summary
  unfolding IsSettled mark_one
  mark-IsSettled summary [] = tt
  mark-IsSettled summary (i ∷ items) =
      let rest = mark-IsSettled summary items in
      elim (Bool-cases (any (text_eq i.id) summary.original_ids)) [
        | inl e ↦ rw e ((λ k. refl), rest)
        | inr e ↦ rw e ((λ k. cc (e, k)), rest)
      ]

  new_or_before :
      (summary x : MemorySummary Vector Time) (old : List (MemorySummary Vector Time))
      (items : List (MemoryItem Vector Time Metadata))
      → IsSettled items summary
      → Memᴰ x (summary ∷ old)
      → Memᴰ x old ⊎ IsSettled items x
  new_or_before summary x old items h (Memᴰ.head e) = inr (subst (λ s. IsSettled items s) (sym e) h)
  new_or_before summary x old items h (Memᴰ.tail m) = inl m

  -- The new summary and the marks of its items.
  marked-IsProgress :
      (tenant_id summary_id : Uuid) (content : Text) (vector : Vector)
      (chosen : List (MemoryItem Vector Time Metadata)) (t : Tables Vector Time Metadata)
      → IsDistinct (map (λ i. i.id) t.items)
      → All (λ i. Memᴰ i t.items × (i.tenant_id ≡ tenant_id) × (is_due service i ≡ true)) chosen
      → IsProgress t (
          mark service (map (λ i. i.id) chosen) (
            add_summary service (new_summary service tenant_id summary_id content vector chosen) t))
  unfolding IsProgress mark add_summary new_summary
  marked-IsProgress tenant_id summary_id content vector chosen t d c = (
    mark-Zip service t.items chosen t.items tenant_id _ _ d c refl refl (Memᴰ.head refl)
        (All-Memᴰ t.items),
    λ s m. Memᴰ.tail m,
    λ x m.
        let summary = new_summary service tenant_id summary_id content vector chosen in
        new_or_before summary x t.summaries _ (mark-IsSettled summary t.items) m,
  )

  compress_items-IsProgress :
      (tenant_id : Uuid) (chosen : List (MemoryItem Vector Time Metadata))
      (s : Job Db World Store Vector Time Metadata)
      → IsDistinct (map (λ i. i.id) s.tables.items)
      → All
          (λ i. Memᴰ i s.tables.items × (i.tenant_id ≡ tenant_id) × (is_due service i ≡ true))
          chosen
      → (n : ℕ) → (compress_items service tenant_id chosen s).0 ≡ ok n
      → IsProgress s.tables (compress_items service tenant_id chosen s).1.tables
  unfolding compress_items summarize embed_summary archive_items
  compress_items-IsProgress tenant_id [] s d c n = λ h. IsProgress-refl s.tables
  compress_items-IsProgress tenant_id (item ∷ items) s d c n =
      let prompt = combine (item ∷ items) in
      elim (Result-cases
        (chat_answer service (service.chat (chat_request service prompt) s.world).0)) [
          | inl (content, e) ↦
              rw e
                (elim (Result-cases
                  (embed service.embedder content service.default_embedding_model
                    (s.cache, (service.chat (chat_request service prompt) s.world).1)).0) [
                      | inl (vector, f) ↦
                          let w =
                            (embed service.embedder content service.default_embedding_model (
                              s.cache,
                              (service.chat (chat_request service prompt) s.world).1,
                            )).1.1 in
                          elim (Result-cases (service.statement w).0) [
                            | inl (u, g) ↦
                                elim (Result-cases (service.statement (service.statement w).1).0) [
                                  | inl (v, k) ↦ rw f (
                                      rw g (
                                        rw k (λ h.
                                          marked-IsProgress tenant_id _ content vector
                                            (item ∷ items) s.tables d c)))
                                  | inr (x, k) ↦ rw f (rw g (rw k (λ h. cc h)))
                                ]
                            | inr (x, g) ↦ rw f (rw g (λ h. cc h))
                          ]
                      | inr (x, f) ↦ rw f (λ h. cc h)
                    ])
          | inr (x, e) ↦ rw e (λ h. cc h)
        ]

  pub compress_tenant-IsProgress :
      (tenant_id : Uuid) (s : Job Db World Store Vector Time Metadata) (n : ℕ)
      → IsDistinct (map (λ i. i.id) s.tables.items)
      → (compress_tenant service tenant_id s).0 ≡ ok n
      → IsProgress s.tables (compress_tenant service tenant_id s).1.tables
  unfolding compress_tenant
  compress_tenant-IsProgress tenant_id s n d = elim (Result-cases (service.statement s.world).0) [
    | inl (u, e) ↦ rw e (
        compress_items-IsProgress tenant_id (due_items service tenant_id s.tables.items)
          (record s { world = (service.statement s.world).1 }) d
          (due_items-All service tenant_id s.tables.items) n)
    | inr (x, e) ↦ rw e (λ h. cc h)
  ]
