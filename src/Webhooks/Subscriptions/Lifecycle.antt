-- ===== src/Webhooks/Subscriptions/Lifecycle.antt =====
-- routes/webhooks.py: what a deletion changes of what tenants see.
use sutram.Prelude.{
  List, [], ◌∷◌, true, false, ◌&&◌, not, ◌≡◌, refl, arith, text_eq, filter, ok, err, any,
  Bool-cases, inl, inr, ◌⊎◌,
}
use sutram.Models.{Uuid}
use sutram.Webhooks.Subscriptions.{
  Subscription, list_webhooks, is_meant, deactivate, delete_webhook, webhook_not_found,
}

-- At most one row has this id and tenant.
abbrev pub IsUnique : Uuid → Uuid → List Subscription → Type 0
IsUnique webhook_id tenant_id [] = Unit
IsUnique webhook_id tenant_id (r ∷ rows) =
    (is_meant webhook_id tenant_id r ≡ true → any (is_meant webhook_id tenant_id) rows ≡ false)
    × IsUnique webhook_id tenant_id rows

-- A tenant's list without the subscription of an id, if the tenant is its owner.
abbrev pub without : Uuid → Uuid → List Subscription → List Subscription
without webhook_id owner rows = filter (λ r. not (is_meant webhook_id owner r)) rows

without-none :
    (webhook_id owner tenant : Uuid) (rows : List Subscription)
    → any (is_meant webhook_id owner) rows ≡ false
    → without webhook_id owner (list_webhooks tenant rows) ≡ list_webhooks tenant rows
unfolding list_webhooks
without-none webhook_id owner tenant [] h = refl
without-none webhook_id owner tenant (r ∷ rows) h =
    elim (Bool-cases (text_eq r.tenant_id tenant && r.active)) [
      | inl e ↦ rw e (ground (arith, h, without-none webhook_id owner tenant rows))
      | inr e ↦ rw e (ground (arith, h, without-none webhook_id owner tenant rows))
    ]

list-deactivate :
    (webhook_id owner tenant : Uuid) (rows : List Subscription)
    → IsUnique webhook_id owner rows
    → list_webhooks tenant (deactivate webhook_id owner rows)
      ≡ without webhook_id owner (list_webhooks tenant rows)
unfolding list_webhooks
list-deactivate webhook_id owner tenant [] u = refl
list-deactivate webhook_id owner tenant (r ∷ rows) u =
    elim (Bool-cases (is_meant webhook_id owner r)) [
      | inl m ↦
          (let gone = without-none webhook_id owner tenant rows (u.0 m) in
            elim (Bool-cases (text_eq r.tenant_id tenant && r.active)) [
              | inl e ↦ rw m (rw e (ground (arith, m, gone)))
              | inr e ↦ rw m (rw e (ground (arith, m, gone)))
            ])
      | inr m ↦
          (let later = list-deactivate webhook_id owner tenant rows u.1 in
            elim (Bool-cases (text_eq r.tenant_id tenant && r.active)) [
              | inl e ↦ rw m (rw e (ground (arith, m, e, later)))
              | inr e ↦ rw m (rw e (ground (arith, m, e, later)))
            ])
    ]

-- A deletion, where ids are unique: if the one who asks owns a subscription of this id, it answers
-- and every tenant's list is what it was but for that subscription; and if not, it answers that
-- there is none and changes nothing.
pub delete_webhook-without :
    (webhook_id owner tenant : Uuid) (rows : List Subscription)
    → IsUnique webhook_id owner rows
    → (any (is_meant webhook_id owner) rows ≡ true)
        × ((delete_webhook webhook_id owner rows).0 ≡ ok tt)
        × (list_webhooks tenant (delete_webhook webhook_id owner rows).1
            ≡ without webhook_id owner (list_webhooks tenant rows))
      ⊎ (any (is_meant webhook_id owner) rows ≡ false)
        × (delete_webhook webhook_id owner rows ≡ (err webhook_not_found, rows))
unfolding delete_webhook
delete_webhook-without webhook_id owner tenant rows u =
    elim (Bool-cases (any (is_meant webhook_id owner) rows)) [
      | inl e ↦ inl (e, rw e refl, rw e (list-deactivate webhook_id owner tenant rows u))
      | inr e ↦ inr (e, rw e refl)
    ]
