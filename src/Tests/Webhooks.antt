-- ===== src/Tests/Webhooks.antt =====
-- The theorem of the webhook deliveries at a subscriber that answers at the third attempt.
use sutram.Prelude.{ℕ, true, refl, none, some, codes, ok, err, ltb, if◌then◌else◌}
use sutram.Webhooks.Delivery.{
  World, WebhookSubscription, WebhookDelivery, pending, deliver_webhook, dispatch,
}
use sutram.Webhooks.Delivery.Retries.{IsSettled, deliver_webhook-IsSettled}

abbrev subscription : WebhookSubscription
subscription = record { url = codes "https://a"; secret_encrypted = codes "00"; active = true }

abbrev world : World ℕ
world = record {
  subscription = λ i. some subscription;
  decrypt = λ s. some (codes "s");
  dumps = λ p t id. codes "{}";
  uuid4 = λ i. codes "u";
  now = λ i. i;
  hmac_hex = λ s m. codes "ff";
  post = λ i r. if ltb i 2 then err (codes "timeout") else ok (204, codes "");
}

abbrev delivery : WebhookDelivery ℕ
delivery = record {
  event_type = codes "execution.completed";
  payload = 7;
  status = pending;
  attempt_count = 0;
  last_attempt_at = none;
  next_retry_at = none;
  response_code = none;
  response_body = none;
}

deliver_webhook-IsSettled_example :
    IsSettled world subscription
      (codes "s")
      (codes "execution.completed")
      7
      delivery
      0
      5
      (some 2)
      (deliver_webhook world 5 0 delivery)
unfolding dispatch
deliver_webhook-IsSettled_example =
    deliver_webhook-IsSettled world subscription (codes "s") (codes "execution.completed") 7
      (record { found = λ i. refl; active = refl; secret_of = refl }) delivery refl refl refl
