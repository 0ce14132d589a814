-- ===== src/Memory/Routes/Items.antt =====
-- services/memory-service/app/routes/memory.py: a memory is stored, read and forgotten.
use sutram.Prelude.{
  ◌∙◌, List, [], ◌∷◌, ◌++◌, true, false, ◌&&◌, ◌≡◌, refl, Option, none, some, Text, text_eq,
  text_eq_iff, text_eq_refl, starts_with, Bool-cases, Option-cases, inl, inr, arith, ok, err,
  if◌then◌else◌,
}
use sutram.Prelude.Program.{pure}
use sutram.Models.{Uuid}
use mathlib.Core.Path.{subst}
use sutram.Memory.Embedder.{embed}
use sutram.Memory.Tables.{MemoryItem}
use sutram.Memory.QueryCache.{query_prefix}
use sutram.Memory.QueryCache.Invalidation.{invalidate_query_cache-IsInvalidated}
use sutram.Memory.SearchRoute.{query_key}
use sutram.Memory.Schemas.{Service, State, MemoryItemCreate, not_found}
use sutram.Memory.Routes.{
  find_item, is_item, first_row, delete_item, embed_content, invalidate, invalidated, publish,
  new_item, add_item, delete_row, on_item, store_memory, get_memory_item, forget_memory,
}

starts_with-append : (s t : Text) → starts_with (s ++ t) s ≡ true
starts_with-append [] t = refl
starts_with-append (a ∷ s) t = ground (arith, starts_with-append s t)

module _ {Vector Time Metadata : Type 0} where
  find_item-id :
      (item_id tenant_id : Uuid) (items : List (MemoryItem Vector Time Metadata))
      (item : MemoryItem Vector Time Metadata)
      → find_item item_id tenant_id items ≡ some item
      → item.id ≡ item_id
  unfolding find_item is_item first_row
  find_item-id id tenant [] item h = cc h
  find_item-id id tenant (x ∷ xs) item h = elim (Bool-cases (is_item id tenant x)) [
    | inl e ↦
        let same : some x ≡ some item = rw e at h in
        let x_is : x ≡ item = cc same in cc (x_is, (text_eq_iff x.id id).0 (ground (arith, e)))
    | inr e ↦ find_item-id id tenant xs item (rw e at h)
  ]

  find_item-delete :
      (item_id tenant_id : Uuid) (items : List (MemoryItem Vector Time Metadata))
      → find_item item_id tenant_id (delete_item item_id items) ≡ none
  unfolding find_item is_item first_row delete_item
  find_item-delete id tenant [] = refl
  find_item-delete id tenant (x ∷ xs) = elim (Bool-cases (text_eq x.id id)) [
    | inl e ↦ rw e (find_item-delete id tenant xs)
    | inr e ↦ rw e (rw e (find_item-delete id tenant xs))
  ]

  find_item-delete_other :
      (item_id other tenant_id : Uuid) (items : List (MemoryItem Vector Time Metadata))
      → text_eq item_id other ≡ false
      → find_item other tenant_id (delete_item item_id items) ≡ find_item other tenant_id items
  unfolding find_item is_item first_row delete_item
  find_item-delete_other id other tenant [] h = refl
  find_item-delete_other id other tenant (x ∷ xs) h =
      let rest = find_item-delete_other id other tenant xs h in
      elim (Bool-cases (text_eq x.id id)) [
        | inl e ↦
            let skip : (text_eq x.id other && text_eq x.tenant_id tenant) ≡ false =
              ground (arith, h, (text_eq_iff x.id id).0 e) in
            rw e (rw skip rest)
        | inr e ↦ elim (Bool-cases (text_eq x.id other && text_eq x.tenant_id tenant)) [
          | inl f ↦ rw e (rw f refl)
          | inr f ↦ rw e (rw f rest)
        ]
      ]

module _ {Db World Vector Failure F Time Metadata : Type 0}
    (service : Service Db World Vector Failure F Time Metadata) where
  -- Where the embedder has a vector for the content, storing a memory answers; then reading it by
  -- its id gives it back with the content, and no search of the tenant is in the cache.
  pub get_memory_item-store_memory :
      (body : MemoryItemCreate Metadata) (tenant_id : Uuid)
      (s : State Db World F Vector Time Metadata) (vector : Vector)
      → (embed service.searcher.embedder body.content service.default_embedding_model
          (s.cache, s.world)).0
        ≡ ok vector
      → (item : MemoryItem Vector Time Metadata) × ((store_memory service body tenant_id s).0
          ≡ ok item)
        × (item.content ≡ body.content)
        × ((get_memory_item service item.id tenant_id (store_memory service body tenant_id s).1).0
            ≡ ok item)
        × ((query : Text) (types : Option (List Text))
            → service.searcher.embedder.redis.get
                (query_key service.searcher.embedder.digest tenant_id query types)
                (store_memory service body tenant_id s).1.cache
              ≡ none)
  unfolding store_memory embed_content invalidate invalidated publish get_memory_item on_item
      find_item is_item first_row add_item new_item query_key
  get_memory_item-store_memory body tenant_id s vector e =
      let after =
        (embed service.searcher.embedder body.content service.default_embedding_model
          (s.cache, s.world)).1 in
      let item = new_item service body (service.uuid4 after.1) tenant_id vector in
      let (d, done, read) =
        invalidate_query_cache-IsInvalidated service.searcher.embedder.redis service.scans tenant_id
          after.0 in
      (
        item,
        rw e (rw done refl),
        refl,
        rw e (
            rw done (rw (text_eq_refl (service.uuid4 after.1)) (rw (text_eq_refl tenant_id) refl))),
        λ query types.
            rw e (rw done (read _ ∙ rw (starts_with-append (query_prefix tenant_id) _) refl)),
      )

  -- What is read depends on the rows alone.
  on_item-pure :
      (o : Option (MemoryItem Vector Time Metadata)) (s t : State Db World F Vector Time Metadata)
      → (on_item service pure o s).0 ≡ (on_item service pure o t).0
  unfolding on_item
  on_item-pure none s t = refl
  on_item-pure (some item) s t = refl

  -- Forgetting a memory that the tenant can read answers; then nobody can read an item with its id
  -- any more, and every other id reads as before, for every tenant.
  pub forget_memory-get_memory_item :
      (item_id tenant_id : Uuid) (s : State Db World F Vector Time Metadata)
      (item : MemoryItem Vector Time Metadata)
      → (get_memory_item service item_id tenant_id s).0 ≡ ok item
      → ((forget_memory service item_id tenant_id s).0 ≡ ok tt)
        × ((other tenant : Uuid)
            → (get_memory_item service other tenant (forget_memory service item_id tenant_id s).1).0
              ≡ (if text_eq item_id other
                  then err not_found
                  else (get_memory_item service other tenant s).0))
  unfolding forget_memory invalidate invalidated get_memory_item on_item delete_row
  forget_memory-get_memory_item item_id tenant_id s item =
      elim (Option-cases (find_item item_id tenant_id s.tables.items)) [
        | inl e ↦ rw e (λ h. cc h)
        | inr (found, e) ↦
            let (d, done, read) =
              invalidate_query_cache-IsInvalidated service.searcher.embedder.redis service.scans
                tenant_id s.cache in
            let same = find_item-id item_id tenant_id s.tables.items found e in
            rw e (
              rw done (
                rw same (λ h. (
                  refl,
                  λ other tenant. elim (Bool-cases (text_eq item_id other)) [
                    | inl f ↦
                        let is_other = (text_eq_iff item_id other).0 f in
                        let gone : find_item other tenant (delete_item item_id s.tables.items)
                            ≡ none =
                          subst
                            (λ x. find_item x tenant (delete_item item_id s.tables.items) ≡ none)
                            is_other (find_item-delete item_id tenant s.tables.items) in
                        rw f (rw gone refl)
                    | inr f ↦ rw f (
                        rw (find_item-delete_other item_id other tenant s.tables.items f)
                          (on_item-pure (find_item other tenant s.tables.items) _ s))
                  ],
                ))))
      ]
