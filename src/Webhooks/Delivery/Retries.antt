-- ===== src/Webhooks/Delivery/Retries.antt =====
-- tasks.py: all the attempts of one delivery.
use sutram.Prelude.{
  ℕ, zero, suc, ◌+◌, ◌-◌, ◌≤◌, List, [], ◌∷◌, Bool, true, false, ◌≡◌, refl, arith, Option, none,
  some, Text, if◌then◌else◌, take, drop, Bool-cases, inl, inr, leb, ap,
}
use sutram.Webhooks.Delivery.{
  World, WebhookSubscription, WebhookDelivery, DeliveryStatus, pending, delivered, dead_lettered,
  retry_delays, dispatch, code_and_body, is_success, record_attempt, lift, deliver,
  with_subscription, with_secret, after, deliver_webhook, returned, Ending, delay, is_settled,
}

drop-delay : (i : ℕ) → i ≤ 3 → drop i retry_delays ≡ delay i ∷ drop (i + 1) retry_delays
drop-delay zero h = refl
drop-delay (suc zero) h = refl
drop-delay (suc (suc zero)) h = refl
drop-delay (suc (suc (suc zero))) h = refl
drop-delay (suc (suc (suc (suc i)))) h = ground (arith, h)

module _ {P : Type 0} (world : World P) (subscription : WebhookSubscription) (secret event : Text)
    (payload : P) where
  -- Every attempt reads this active subscription, whose secret can be decrypted.
  pub record IsLive : Type 0 where
    pub found : (i : ℕ) → world.subscription i ≡ some subscription
    pub active : subscription.active ≡ true
    pub secret_of : world.decrypt subscription.secret_encrypted ≡ some secret

  -- Whether an attempt is answered by a 2xx.
  abbrev pub succeeds : ℕ → Bool
  succeeds i = is_success (code_and_body (dispatch world i subscription.url secret event payload)).0

  -- The first of the next `n` attempts that succeeds, counted from here.
  abbrev pub first_success : ℕ → ℕ → Option ℕ
  first_success zero i = none
  first_success (suc n) i =
      let rest = first_success n (i + 1) in
      if succeeds i then some 0 else elim rest [ none ↦ none | some k ↦ some (suc k) ]

  abbrev pub attempts : ℕ → Option ℕ → ℕ
  attempts n none = n
  attempts n (some k) = suc k

  abbrev pub status_after : Option ℕ → DeliveryStatus
  status_after none = dead_lettered
  status_after (some k) = delivered

  pub record IsSettled (row : WebhookDelivery P) (i n : ℕ) (first : Option ℕ)
      (r : List ℕ × Ending × WebhookDelivery P) : Type 0 where
    pub countdowns : r.0 ≡ take (attempts n first - 1) (drop i retry_delays)
    pub ending : r.1 ≡ returned
    pub status : r.2.status ≡ status_after first
    pub attempt_count : r.2.attempt_count ≡ row.attempt_count + attempts n first

  module _ (live : IsLive) where
    deliver-live :
        (i : ℕ) (row : WebhookDelivery P)
        → row.status ≡ pending
        → row.event_type ≡ event
        → row.payload ≡ payload
        → deliver world i row
          ≡ lift world (
              record_attempt world i
                (code_and_body (dispatch world i subscription.url secret event payload))
                row)
    unfolding deliver with_subscription with_secret
    deliver-live i row p e l =
        rw (ap is_settled p)
          (rw (live.found i) (rw live.active (rw live.secret_of (rw e (rw l refl)))))

    -- One round of the task whose attempt fails before the last.
    after-failure :
        (f i : ℕ) (row : WebhookDelivery P)
        → i ≤ 3
        → row.status ≡ pending
        → row.event_type ≡ event
        → row.payload ≡ payload
        → succeeds i ≡ false
        → (row' : WebhookDelivery P) × (row'.status ≡ pending)
          × (row'.event_type ≡ event)
          × (row'.payload ≡ payload)
          × (row'.attempt_count ≡ row.attempt_count + 1)
          × ((deliver_webhook world (suc f) i row).0
              ≡ delay i ∷ (deliver_webhook world f (i + 1) row').0)
          × ((deliver_webhook world (suc f) i row).1 ≡ (deliver_webhook world f (i + 1) row').1)
          × ((deliver_webhook world (suc f) i row).2 ≡ (deliver_webhook world f (i + 1) row').2)
    unfolding deliver_webhook after record_attempt
    after-failure f i row le p e l fails =
        let early : leb 4 i ≡ false = ground arith in
        let few : leb 5 i ≡ false = ground arith in
        rw (deliver-live i row p e l)
          (rw fails (rw early (rw few (_, refl, e, l, refl, refl, refl, refl))))

    after-last :
        (f i : ℕ) (row : WebhookDelivery P)
        → 4 ≤ i
        → row.status ≡ pending
        → row.event_type ≡ event
        → row.payload ≡ payload
        → succeeds i ≡ false
        → ((deliver_webhook world (suc f) i row).0 ≡ [])
          × ((deliver_webhook world (suc f) i row).1 ≡ returned)
          × ((deliver_webhook world (suc f) i row).2.status ≡ dead_lettered)
          × ((deliver_webhook world (suc f) i row).2.attempt_count ≡ row.attempt_count + 1)
    unfolding deliver_webhook after record_attempt
    after-last f i row le p e l fails =
        let late : leb 4 i ≡ true = ground arith in
        rw (deliver-live i row p e l) (rw fails (rw late (refl, refl, refl, refl)))

    after-success :
        (f i : ℕ) (row : WebhookDelivery P)
        → row.status ≡ pending
        → row.event_type ≡ event
        → row.payload ≡ payload
        → succeeds i ≡ true
        → ((deliver_webhook world (suc f) i row).0 ≡ [])
          × ((deliver_webhook world (suc f) i row).1 ≡ returned)
          × ((deliver_webhook world (suc f) i row).2.status ≡ delivered)
          × ((deliver_webhook world (suc f) i row).2.attempt_count ≡ row.attempt_count + 1)
    unfolding deliver_webhook after record_attempt
    after-success f i row p e l h = rw (deliver-live i row p e l) (rw h (refl, refl, refl, refl))

    IsSettled-success :
        (f i : ℕ) (row : WebhookDelivery P)
        → row.status ≡ pending
        → row.event_type ≡ event
        → row.payload ≡ payload
        → succeeds i ≡ true
        → IsSettled row i (suc f) (first_success (suc f) i) (deliver_webhook world (suc f) i row)
    IsSettled-success f i row p e l h =
        let (none_left, returns, status, count) = after-success f i row p e l h in
        rw h (record {
          countdowns = none_left;
          ending = returns;
          status = status;
          attempt_count = count;
        })

    IsSettled-last :
        (i : ℕ) (row : WebhookDelivery P)
        → 4 ≤ i
        → row.status ≡ pending
        → row.event_type ≡ event
        → row.payload ≡ payload
        → succeeds i ≡ false
        → IsSettled row i 1 (first_success 1 i) (deliver_webhook world 1 i row)
    IsSettled-last i row le p e l h =
        let (none_left, returns, status, count) = after-last 0 i row le p e l h in
        rw h (record {
          countdowns = none_left;
          ending = returns;
          status = status;
          attempt_count = count;
        })

    -- The attempts from one that fails, by those after it.
    IsSettled-step :
        (f i : ℕ) (row row' : WebhookDelivery P) (first : Option ℕ)
        → i ≤ 3
        → row'.attempt_count ≡ row.attempt_count + 1
        → (r r' : List ℕ × Ending × WebhookDelivery P) → r.0 ≡ delay i ∷ r'.0
        → r.1 ≡ r'.1
        → r.2 ≡ r'.2
        → IsSettled row' (i + 1) (suc f) first r'
        → IsSettled row i (suc (suc f)) (elim first [ none ↦ none | some k ↦ some (suc k) ]) r
    IsSettled-step f i row row' none le counted r r' delays returns final rest = record {
      countdowns = ground (arith, delays, rest.countdowns, drop-delay i le);
      ending = cc (returns, rest.ending);
      status = ground (arith, final, rest.status);
      attempt_count = ground (arith, final, rest.attempt_count, counted);
    }
    IsSettled-step f i row row' (some k) le counted r r' delays returns final rest = record {
      countdowns = ground (arith, delays, rest.countdowns, drop-delay i le);
      ending = cc (returns, rest.ending);
      status = ground (arith, final, rest.status);
      attempt_count = ground (arith, final, rest.attempt_count, counted);
    }

    IsSettled-from :
        (f i : ℕ) (row : WebhookDelivery P)
        → i + suc f ≡ 5
        → row.status ≡ pending
        → row.event_type ≡ event
        → row.payload ≡ payload
        → IsSettled row i (suc f) (first_success (suc f) i) (deliver_webhook world (suc f) i row)
    IsSettled-from zero i row n p e l = elim (Bool-cases (succeeds i)) [
      | inl h ↦ IsSettled-success 0 i row p e l h
      | inr h ↦ IsSettled-last i row (omega (arith, n)) p e l h
    ]
    IsSettled-from (suc f) i row n p e l = elim (Bool-cases (succeeds i)) [
      | inl h ↦ IsSettled-success (suc f) i row p e l h
      | inr h ↦
          (let (row', p', e', l', counted, delays, returns, final) =
              after-failure (suc f) i row (omega (arith, n)) p e l h in
            rw h (
              IsSettled-step f i row row' (first_success (suc f) (i + 1)) (omega (arith, n)) counted
                _ _ delays returns final
                (IsSettled-from f (i + 1) row' (omega (arith, n)) p' e' l')))
    ]

    -- A pending delivery to a subscription that stays active, whose secret can be decrypted: the
    -- task returns after at most five attempts. It stops at the first attempt that is answered by a
    -- 2xx, with the row DELIVERED, and after five failures the row is DEAD_LETTERED; the attempts
    -- are counted, and before each but the first the task has waited for its entry of the schedule.
    -- Five rounds are fuel enough, and the last entry of the schedule is never used.
    pub deliver_webhook-IsSettled :
        (row : WebhookDelivery P)
        → row.status ≡ pending
        → row.event_type ≡ event
        → row.payload ≡ payload
        → IsSettled row 0 5 (first_success 5 0) (deliver_webhook world 5 0 row)
    deliver_webhook-IsSettled row p e l = IsSettled-from 4 0 row refl p e l
