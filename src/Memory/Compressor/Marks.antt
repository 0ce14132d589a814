-- ===== src/Memory/Compressor/Marks.antt =====
-- services/memory-service/app/compression/compressor.py: which items a pass marks, and that a
-- summary covers each of them.
use sutram.Prelude.{
  ◌≡◌, refl, sym, List, [], ◌∷◌, map, true, false, Text, text_eq, text_eq_iff, any, All, All-map,
  All-filter, All-Memᴰ, ◌⊎◌, inl, inr, arith, Bool-cases,
}
use sutram.Prelude.Strings.{IsAbsent, IsDistinct}
use sutram.Models.{Uuid}
use sutram.Memory.Tables.{MemoryItem, MemorySummary}
use sutram.Memory.Compressor.{Compressor, is_due, is_due_of, due_items, mark_one}
use mathlib.Core.List.{Memᴰ}

-- Two lists that correspond element by element.
pub data Zip {A : Type 0} {B : Type 0} (R : A → B → Type 0) : List A → List B → Type 0 where
  nil : Zip R [] []
  cons : {a : A} {b : B} {l : List A} {r : List B} → R a b → Zip R l r → Zip R (a ∷ l) (b ∷ r)

module _ {Vector Time Metadata : Type 0} where
  -- An item whose id is among those of chosen items, with a fact that all of these have.
  any-chosen :
      (P : MemoryItem Vector Time Metadata → Type 0) (id : Uuid)
      (chosen : List (MemoryItem Vector Time Metadata))
      → All P chosen
      → any (text_eq id) (map (λ i. i.id) chosen) ≡ true
      → (c : MemoryItem Vector Time Metadata) × P c × (c.id ≡ id)
  any-chosen P id [] a h = ground (arith, h)
  any-chosen P id (c ∷ cs) a h = elim (Bool-cases (text_eq id c.id)) [
    | inl e ↦ (c, a.0, sym ((text_eq_iff id c.id).0 e))
    | inr e ↦ any-chosen P id cs a.1 (ground (arith, h, e))
  ]

  pub absent-Memᴰ :
      (t : Text) (items : List (MemoryItem Vector Time Metadata))
      (b : MemoryItem Vector Time Metadata)
      → IsAbsent t (map (λ i. i.id) items)
      → Memᴰ b items
      → text_eq t b.id ≡ false
  absent-Memᴰ t [] b a m = elim m [ ]
  absent-Memᴰ t (x ∷ xs) b a (Memᴰ.head e) = cc (e, a.0)
  absent-Memᴰ t (x ∷ xs) b a (Memᴰ.tail m) = absent-Memᴰ t xs b a.1 m

  -- Where ids are distinct, items with the same id are the same.
  pub distinct_unique :
      (items : List (MemoryItem Vector Time Metadata)) (a b : MemoryItem Vector Time Metadata)
      → IsDistinct (map (λ i. i.id) items)
      → Memᴰ a items
      → Memᴰ b items
      → a.id ≡ b.id
      → a ≡ b
  unfolding IsDistinct
  distinct_unique [] a b d m n same = elim m [ ]
  distinct_unique (x ∷ xs) a b d (Memᴰ.head e) (Memᴰ.head f) same = cc (e, f)
  distinct_unique (x ∷ xs) a b d (Memᴰ.head e) (Memᴰ.tail m) same =
      ground (arith, absent-Memᴰ x.id xs b d.0 m, text_eq_iff x.id b.id, e, same)
  distinct_unique (x ∷ xs) a b d (Memᴰ.tail m) (Memᴰ.head e) same =
      ground (arith, absent-Memᴰ x.id xs a d.0 m, text_eq_iff x.id a.id, e, same)
  distinct_unique (x ∷ xs) a b d (Memᴰ.tail m) (Memᴰ.tail n) same =
      distinct_unique xs a b d.1 m n same

module _ {Db World Store Vector Time Metadata Failure : Type 0}
    (service : Compressor Db World Store Vector Time Metadata Failure) where
  -- A summary of the item's tenant stands for it.
  unfoldable pub IsCovered :
      List (MemorySummary Vector Time) → MemoryItem Vector Time Metadata → Type 0
  IsCovered summaries item =
      (summary : MemorySummary Vector Time) × Memᴰ summary summaries
      × (summary.tenant_id ≡ item.tenant_id)
      × (any (text_eq item.id) summary.original_ids ≡ true)

  -- What may become of an item `a`: nothing, or it was due, is marked, and a summary covers it.
  unfoldable pub IsChange :
      List (MemorySummary Vector Time)
      → MemoryItem Vector Time Metadata
      → MemoryItem Vector Time Metadata
      → Type 0
  IsChange summaries a b =
      (a ≡ b)
      ⊎ ((is_due service a ≡ true) × (b ≡ record a { compressed = true }) × IsCovered summaries a)

  pub Zip-refl :
      (summaries : List (MemorySummary Vector Time))
      (items : List (MemoryItem Vector Time Metadata))
      → Zip (IsChange summaries) items items
  unfolding IsChange
  Zip-refl summaries [] = Zip.nil
  Zip-refl summaries (a ∷ l) = Zip.cons (inl refl) (Zip-refl summaries l)

  pub due_items-All :
      (tenant_id : Uuid) (items : List (MemoryItem Vector Time Metadata))
      → All
          (λ i. Memᴰ i items × (i.tenant_id ≡ tenant_id) × (is_due service i ≡ true))
          (due_items service tenant_id items)
  unfolding due_items is_due_of
  due_items-All tenant_id items = service.sql.nearest-All _ _ _ _ (
      All-map _
        (λ i (m, h).
          (m, (text_eq_iff i.tenant_id tenant_id).0 (ground (arith, h)), ground (arith, h)))
        (All-filter _ (is_due_of service tenant_id) items (All-Memᴰ items)))

  -- Marking the chosen items, which a summary lists, is such a change of each item.
  pub mark-Zip :
      (all chosen items : List (MemoryItem Vector Time Metadata)) (tenant_id : Uuid)
      (summary : MemorySummary Vector Time) (summaries : List (MemorySummary Vector Time))
      → IsDistinct (map (λ i. i.id) all)
      → All (λ i. Memᴰ i all × (i.tenant_id ≡ tenant_id) × (is_due service i ≡ true)) chosen
      → summary.tenant_id ≡ tenant_id
      → summary.original_ids ≡ map (λ i. i.id) chosen
      → Memᴰ summary summaries
      → All (λ i. Memᴰ i all) items
      → Zip (IsChange summaries) items (map (mark_one service (map (λ i. i.id) chosen)) items)
  unfolding mark_one IsChange IsCovered
  mark-Zip all chosen [] tenant_id summary summaries d c t o m a = Zip.nil
  mark-Zip all chosen (i ∷ items) tenant_id summary summaries d c t o m a =
      let rest = mark-Zip all chosen items tenant_id summary summaries d c t o m a.1 in
      elim (Bool-cases (any (text_eq i.id) (map (λ x. x.id) chosen))) [
        | inl e ↦
            let (x, (mx, tx, due), same) = any-chosen _ i.id chosen c e in
            let eq = distinct_unique all x i d mx a.0 same in
            let listed : any (text_eq i.id) summary.original_ids ≡ true = cc (e, o) in
            rw e (Zip.cons (inr (cc (eq, due), refl, (summary, m, cc (t, tx, eq), listed))) rest)
        | inr e ↦ rw e (Zip.cons (inl refl) rest)
      ]
