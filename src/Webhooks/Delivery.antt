-- ===== src/Webhooks/Delivery.antt =====
-- services/workflow-service/app/webhooks/tasks.py and dispatcher.py: the delivery of one webhook,
-- with its retries. What lies outside, the database's answers, the decryption of the secret, JSON,
-- HMAC and the subscriber's server, is a `World`, by the number of the attempt.
pub mod Retries
use sutram.Prelude.{
  ℕ, zero, suc, ◌+◌, ◌-◌, String, List, [], ◌∷◌, ◌++◌, Bool, true, false, not, ◌&&◌, Option, none,
  some, Text, codes, if◌then◌else◌, Result, ok, err, leb, ltb, length, take, get_elem?,
}
use sutram.Models.{Uuid}

pub data DeliveryStatus : Type 0 where
  pending delivered failed dead_lettered : DeliveryStatus

pub record WebhookDelivery (P : Type 0) : Type 0 where
  pub event_type : Text
  pub payload : P
  pub status : DeliveryStatus
  pub attempt_count : ℕ
  pub last_attempt_at : Option ℕ
  pub next_retry_at : Option ℕ
  pub response_code : Option ℕ
  pub response_body : Option Text

pub record WebhookSubscription : Type 0 where
  pub url : Text
  pub secret_encrypted : Text
  pub active : Bool

-- What `client.post` is given, but for the constant content type and timeout.
pub record PostRequest : Type 0 where
  pub url : Text
  pub content : Text
  pub signature : Text
  pub event : Text

pub record World (P : Type 0) : Type 0 where
  -- The row that the subscription query reads.
  pub subscription : ℕ → Option WebhookSubscription
  -- `decrypt_secret` with the configured key; it may raise.
  pub decrypt : Text → Option Text
  -- The bytes of the payload with its timestamp and delivery id.
  pub dumps : P → ℕ → Uuid → Text
  pub uuid4 : ℕ → Uuid
  pub now : ℕ → ℕ
  -- HMAC-SHA256 of a message under a secret, in hexadecimal.
  pub hmac_hex : Text → Text → Text
  -- The status code and the body, or the text of the `httpx.RequestError` raised.
  pub post : ℕ → PostRequest → Result Text (ℕ × Text)

-- An exception that the task does not handle.
pub data DeliveryError : Type 0 where
  invalid_tag max_retries_exceeded : DeliveryError

abbrev pub retry_delays : List ℕ
retry_delays = 1 ∷ 5 ∷ 30 ∷ 300 ∷ 1800 ∷ []

-- `RETRY_DELAYS[attempt]`, which the code reads only within the list.
abbrev pub delay_or_zero : Option ℕ → ℕ
delay_or_zero none = 0
delay_or_zero (some d) = d

abbrev pub delay : ℕ → ℕ
delay attempt = delay_or_zero (get_elem? retry_delays attempt)

abbrev pub is_settled : DeliveryStatus → Bool
is_settled delivered = true
is_settled dead_lettered = true
is_settled _ = false

abbrev pub code_and_body : Result Text (ℕ × Text) → ℕ × Text
code_and_body (ok answer) = answer
code_and_body (err message) = (0, message)

abbrev pub is_success : ℕ → Bool
is_success status_code = leb 200 status_code && ltb status_code 300

-- How a task ends: it returns, an exception leaves it, or the fuel of the model is used up.
pub data Ending : Type 0 where
  returned : Ending
  raised : DeliveryError → Ending
  out_of_fuel : Ending

abbrev pub max_retries : ℕ
max_retries = 5

module _ {P : Type 0} (world : World P) where
  unfoldable pub sign_payload : Text → Text → Text
  sign_payload payload_bytes secret = codes "sha256=" ++ world.hmac_hex secret payload_bytes

  -- `WebhookDispatcher.deliver`.
  unfoldable pub dispatch : ℕ → Text → Text → Text → P → Result Text (ℕ × Text)
  dispatch attempt url secret event_type payload =
      let payload_bytes = world.dumps payload (world.now attempt) (world.uuid4 attempt) in
      world.post attempt (record {
        url = url;
        content = payload_bytes;
        signature = sign_payload payload_bytes secret;
        event = event_type;
      })

  -- What is recorded of an attempt, and the countdown if there is a retry.
  record_attempt : ℕ → ℕ × Text → WebhookDelivery P → Option ℕ × WebhookDelivery P
  record_attempt attempt (status_code, response_body) delivery =
      let tried = record delivery {
        attempt_count = delivery.attempt_count + 1;
        last_attempt_at = some (world.now attempt);
        response_code = some status_code;
        response_body = some (take 1000 response_body);
      } in
      if is_success status_code
      then (none, record tried { status = delivered })
      else if leb (length retry_delays - 1) attempt
      then (none, record tried { status = dead_lettered })
      else (
        some (delay attempt),
        record tried { status = pending; next_retry_at = some (world.now attempt + delay attempt) },
      )

  abbrev lift : Option ℕ × WebhookDelivery P → Result DeliveryError (Option ℕ) × WebhookDelivery P
  lift (countdown, delivery) = (ok countdown, delivery)

  with_secret :
      ℕ
      → WebhookSubscription
      → Option Text
      → WebhookDelivery P
      → Result DeliveryError (Option ℕ) × WebhookDelivery P
  with_secret attempt subscription none delivery = (err invalid_tag, delivery)
  with_secret attempt subscription (some secret) delivery = lift (
      record_attempt attempt
        (code_and_body
          (dispatch attempt subscription.url secret delivery.event_type delivery.payload))
        delivery)

  with_subscription :
      ℕ
      → Option WebhookSubscription
      → WebhookDelivery P
      → Result DeliveryError (Option ℕ) × WebhookDelivery P
  unfolding with_secret
  with_subscription attempt none delivery = (ok none, record delivery { status = failed })
  with_subscription attempt (some subscription) delivery =
      if subscription.active
      then with_secret attempt subscription (world.decrypt subscription.secret_encrypted) delivery
      else (ok none, record delivery { status = failed })

  -- `_deliver` on the row that it finds.
  deliver : ℕ → WebhookDelivery P → Result DeliveryError (Option ℕ) × WebhookDelivery P
  deliver attempt delivery =
      if is_settled delivery.status
      then (ok none, delivery)
      else with_subscription attempt (world.subscription attempt) delivery

  -- `deliver_webhook` from an attempt on: `self.retry` runs the task once more with one more
  -- retry, unless there have been `max_retries`. The countdowns of the retries, the ending, the row.
  after :
      ℕ
      → List ℕ × Ending × WebhookDelivery P
      → Result DeliveryError (Option ℕ)
      → WebhookDelivery P
      → List ℕ × Ending × WebhookDelivery P
  after attempt rest (err e) delivery = ([], raised e, delivery)
  after attempt rest (ok none) delivery = ([], returned, delivery)
  after attempt (delays, ending, final) (ok (some countdown)) delivery =
      if leb max_retries attempt
      then ([], raised max_retries_exceeded, delivery)
      else (countdown ∷ delays, ending, final)

  pub deliver_webhook : ℕ → ℕ → WebhookDelivery P → List ℕ × Ending × WebhookDelivery P
  deliver_webhook zero attempt delivery = ([], out_of_fuel, delivery)
  deliver_webhook (suc fuel) attempt delivery =
      let (result, delivery') = deliver attempt delivery in
      let rest = deliver_webhook fuel (attempt + 1) delivery' in after attempt rest result delivery'
