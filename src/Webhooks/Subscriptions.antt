-- ===== src/Webhooks/Subscriptions.antt =====
-- services/workflow-service/app/routes/webhooks.py: a tenant's webhook subscriptions, a list of rows.
-- The fresh id, the fresh secret and the encryption are parameters.
pub mod Lifecycle
use sutram.Prelude.{
  ℕ, List, [], ◌∷◌, ◌++◌, Bool, true, false, ◌&&◌, Text, text_eq, filter, if◌then◌else◌, Result, ok,
  err, any,
}
use sutram.Models.{Uuid}
use sutram.Webhooks.UrlValidator.{WebhookUrlError}

pub record Subscription : Type 0 where
  pub id : Uuid
  pub tenant_id : Uuid
  pub url : Text
  pub secret_encrypted : Text
  pub events : List Text
  pub active : Bool

pub record WebhookSubscriptionCreate : Type 0 where
  pub url : Text
  pub events : List Text

-- The answer to a registration, which alone shows the secret.
pub record WebhookRegistrationResponse : Type 0 where
  pub id : Uuid
  pub tenant_id : Uuid
  pub url : Text
  pub events : List Text
  pub secret : Text

-- `HTTPException` with 422 and with 404.
pub data WebhookHttpError : Type 0 where
  unprocessable : WebhookUrlError → WebhookHttpError
  webhook_not_found : WebhookHttpError

module _ (validate : Text → Result WebhookUrlError (Unit {0})) (encrypt_secret : Text → Text) where
  registered :
      Result WebhookUrlError (Unit {0})
      → WebhookSubscriptionCreate
      → Uuid
      → Uuid
      → Text
      → List Subscription
      → Result WebhookHttpError WebhookRegistrationResponse × List Subscription
  registered (err e) body tenant_id id secret rows = (err (unprocessable e), rows)
  registered (ok u) body tenant_id id secret rows = (
    ok (record {
      id = id;
      tenant_id = tenant_id;
      url = body.url;
      events = body.events;
      secret = secret;
    }),
    rows
        ++ record {
          id = id;
          tenant_id = tenant_id;
          url = body.url;
          secret_encrypted = encrypt_secret secret;
          events = body.events;
          active = true;
        }
          ∷ [],
  )

  pub create_webhook :
      WebhookSubscriptionCreate
      → Uuid
      → Uuid
      → Text
      → List Subscription
      → Result WebhookHttpError WebhookRegistrationResponse × List Subscription
  unfolding registered
  create_webhook body tenant_id id secret rows =
      registered (validate body.url) body tenant_id id secret rows

unfoldable pub list_webhooks : Uuid → List Subscription → List Subscription
list_webhooks tenant_id rows = filter (λ r. text_eq r.tenant_id tenant_id && r.active) rows

abbrev pub is_meant : Uuid → Uuid → Subscription → Bool
is_meant webhook_id tenant_id r = text_eq r.id webhook_id && text_eq r.tenant_id tenant_id

-- The row of this id and tenant, of which there is at most one, made inactive.
abbrev pub deactivate : Uuid → Uuid → List Subscription → List Subscription
deactivate webhook_id tenant_id [] = []
deactivate webhook_id tenant_id (r ∷ rows) =
    let rest = deactivate webhook_id tenant_id rows in
    if is_meant webhook_id tenant_id r then record r { active = false } ∷ rows else r ∷ rest

unfoldable pub delete_webhook :
    Uuid → Uuid → List Subscription → Result WebhookHttpError (Unit {0}) × List Subscription
delete_webhook webhook_id tenant_id rows =
    if any (is_meant webhook_id tenant_id) rows
    then (ok tt, deactivate webhook_id tenant_id rows)
    else (err webhook_not_found, rows)
