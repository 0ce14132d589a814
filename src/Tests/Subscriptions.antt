-- ===== src/Tests/Subscriptions.antt =====
-- The theorem of the webhook routes at two subscriptions.
use sutram.Prelude.{List, [], ◌∷◌, true, false, any, ◌≡◌, ◌⊎◌, refl, ok, err, codes}
use sutram.Models.{Uuid}
use sutram.Webhooks.Subscriptions.{
  Subscription, is_meant, list_webhooks, delete_webhook, webhook_not_found,
}
use sutram.Webhooks.Subscriptions.Lifecycle.{without, delete_webhook-without}

abbrev hook : Uuid → Subscription
hook id = record {
  id = id;
  tenant_id = codes "t";
  url = codes "https://a";
  secret_encrypted = codes "00";
  events = [];
  active = true;
}

abbrev hooks : List Subscription
hooks = hook (codes "1") ∷ hook (codes "2") ∷ []

delete_webhook-without_example :
    (any (is_meant (codes "1") (codes "t")) hooks ≡ true)
      × ((delete_webhook (codes "1") (codes "t") hooks).0 ≡ ok tt)
      × (list_webhooks (codes "t") (delete_webhook (codes "1") (codes "t") hooks).1
          ≡ without (codes "1") (codes "t") (list_webhooks (codes "t") hooks))
    ⊎ (any (is_meant (codes "1") (codes "t")) hooks ≡ false)
      × (delete_webhook (codes "1") (codes "t") hooks ≡ (err webhook_not_found, hooks))
delete_webhook-without_example =
    delete_webhook-without (codes "1") (codes "t") (codes "t") hooks
      ((λ h. refl), ((λ h. refl), tt))
