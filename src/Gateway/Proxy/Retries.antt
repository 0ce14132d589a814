-- ===== src/Gateway/Proxy/Retries.antt =====
-- proxy.py: two requests of a tenant with one idempotency key.
use sutram.Prelude.{
  ℕ, List, ◌∷◌, Bool, true, false, ◌≡◌, refl, arith, Option, none, some, Text, text_eq_refl, leb,
  if◌then◌else◌, ok, err, Bool-cases, Option-cases, inl, inr, text_eq, codes, text_eq_iff, ◌⊎◌,
}
use sutram.Models.{Uuid}
use sutram.Redis.{Redis}
use sutram.Middleware.RateLimit.{check}
use sutram.Middleware.Idempotency.{redis_key, check_and_store, delete}
use sutram.Gateway.Headers.{ApiGatewaySettings, build_forward_headers, downstream_url}
use sutram.Gateway.Proxy.{
  Request, Forwarded, Upstream, duplicate_request, rate_limit_exceeded, Gateway, scoped_key,
  full_path, idempotency_applies, is_sse, proxy, forward, check_rate_limit, check_idempotency,
  proxy_buffered, client_send, free_key, RateLimitExceeded,
}

-- The request that is made of a client's.
abbrev pub outgoing : ApiGatewaySettings → Text → Request → Uuid → Forwarded
outgoing settings path request tenant_id = record {
  method = request.method;
  url = downstream_url (full_path path) settings;
  headers = build_forward_headers request.header_items tenant_id settings.internal_auth_token;
  params = request.query_params;
  content = some request.body;
}

-- Whether an answer frees the key.
abbrev pub frees : Option Upstream → Bool
frees none = false
frees (some response) = leb 500 response.status_code

module _ {Db : Type 0} (redis : Redis Db) (settings : ApiGatewaySettings)
    (send : List Forwarded → Forwarded → Option Upstream) where
  -- A request over its limit is answered by 429: nothing is sent and no key is touched.
  pub proxy-limited :
      (path : Text) (request : Request) (tenant_id : Uuid) (key : Option Text) (now : ℕ)
      (s : Gateway Db)
      → (e : RateLimitExceeded)
      → (check redis settings.requests_per_minute tenant_id now s.limits).0 ≡ err e
      → proxy redis settings send path request tenant_id key now s ≡ (
        err rate_limit_exceeded,
        record s { limits = (check redis settings.requests_per_minute tenant_id now s.limits).1 },
      )
  unfolding proxy check_rate_limit
  proxy-limited path request tenant_id key now s e h = rw h refl

  free_after : Uuid → Text → Option Upstream → Db → Db
  free_after tenant_id key none d = d
  free_after tenant_id key (some response) d =
      if leb 500 response.status_code then delete redis (scoped_key tenant_id key) d else d

  forward-state :
      (path : Text) (request : Request) (tenant_id : Uuid) (key : Text) (s : Gateway Db)
      → idempotency_applies path request ≡ true
      → is_sse path request ≡ false
      → (forward redis settings send path request tenant_id (some key) s).1 ≡ record s {
        keys =
            free_after tenant_id key
              (send s.sent (outgoing settings path request tenant_id))
              s.keys;
        sent = outgoing settings path request tenant_id ∷ s.sent;
      }
  unfolding forward proxy_buffered client_send free_key free_after
  forward-state path request tenant_id key s applies buffer = rw applies (
      rw buffer (elim (Option-cases (send s.sent (outgoing settings path request tenant_id))) [
        | inl e ↦ rw e refl
        | inr (response, e) ↦ elim (Bool-cases (leb 500 response.status_code)) [
          | inl f ↦ rw e (rw f refl)
          | inr f ↦ rw e (rw f refl)
        ]
      ]))

  get_not_post :
      (method : Text) → text_eq method (codes "POST") ≡ true → text_eq method (codes "GET") ≡ false
  get_not_post method h = rw ((text_eq_iff method (codes "POST")).0 h) refl

  not_sse :
      (path : Text) (request : Request)
      → idempotency_applies path request ≡ true
      → is_sse path request ≡ false
  unfolding idempotency_applies is_sse
  not_sse path request h = ground (arith, h, get_not_post request.method)

  get-free_after :
      (tenant_id : Uuid) (key : Text) (answer : Option Upstream) (d : Db)
      → redis.get (redis_key (scoped_key tenant_id key)) (free_after tenant_id key answer d)
        ≡ (if frees answer then none else redis.get (redis_key (scoped_key tenant_id key)) d)
  unfolding free_after delete
  get-free_after tenant_id key none d = refl
  get-free_after tenant_id key (some response) d =
      let k = redis_key (scoped_key tenant_id key) in
      ground (arith, redis.get-delete k k d, text_eq_refl k)

  module _ (path : Text) (request : Request) (tenant_id : Uuid) (key : Text) (now : ℕ)
      (applies : idempotency_applies path request ≡ true) where
    abbrev stored_key : Text
    stored_key = redis_key (scoped_key tenant_id key)

    -- What a request with a key leaves: it is stored, and freed again if the answer frees it.
    pub record IsSent (s s' : Gateway Db) : Type 0 where
      pub calls : s'.sent ≡ outgoing settings path request tenant_id ∷ s.sent
      pub limits : s'.limits ≡ (check redis settings.requests_per_minute tenant_id now s.limits).1
      pub stored : redis.get stored_key s'.keys ≡ (
          if frees (send s.sent (outgoing settings path request tenant_id))
          then none
          else some (codes "1"))

    proxy-first :
        (s : Gateway Db)
        → (check redis settings.requests_per_minute tenant_id now s.limits).0 ≡ ok tt
        → redis.get stored_key s.keys ≡ none
        → IsSent s (proxy redis settings send path request tenant_id (some key) now s).1
    unfolding proxy check_rate_limit check_idempotency check_and_store
    proxy-first s passes absent =
        let added = redis.set_nx_absent stored_key (codes "1") 86400 s.keys absent in
        let out = outgoing settings path request tenant_id in
        let final =
          forward-state path request tenant_id key
            (record s {
              limits = (check redis settings.requests_per_minute tenant_id now s.limits).1;
              keys = (redis.set_nx stored_key (codes "1") 86400 s.keys).1;
            })
            applies (not_sse path request applies) in
        rw applies (
          rw passes (
            rw (added.0) (
              rw final (record {
                calls = refl;
                limits = refl;
                stored = ground (
                  arith,
                  get-free_after tenant_id key (send s.sent out)
                      (redis.set_nx stored_key (codes "1") 86400 s.keys).1,
                  added.1 stored_key,
                  text_eq_refl stored_key,
                );
              }))))

    proxy-again :
        (s : Gateway Db) (v : Text)
        → (check redis settings.requests_per_minute tenant_id now s.limits).0 ≡ ok tt
        → redis.get stored_key s.keys ≡ some v
        → ((proxy redis settings send path request tenant_id (some key) now s).0
            ≡ err (duplicate_request key))
          × ((proxy redis settings send path request tenant_id (some key) now s).1.sent ≡ s.sent)
    unfolding proxy check_rate_limit check_idempotency check_and_store
    proxy-again s v passes present =
        let found = redis.set_nx_present stored_key (codes "1") v 86400 s.keys present in
        rw applies (rw passes (rw (found.0) (refl, refl)))

  -- Two requests of a tenant with one idempotency key, to endpoints where the key counts, the first
  -- with a new key and both within the rate limit. Where the first is answered by a 5xx, the second
  -- is sent as well. Where it has any other answer, and also where the HTTP client raises, the
  -- second is not sent and is refused as a duplicate. The TTL of the key does not run out.
  pub proxy-retry :
      (path path' : Text) (request request' : Request) (tenant_id : Uuid) (key : Text)
      (now now' : ℕ) (s : Gateway Db)
      → idempotency_applies path request ≡ true
      → idempotency_applies path' request' ≡ true
      → redis.get (redis_key (scoped_key tenant_id key)) s.keys ≡ none
      → (check redis settings.requests_per_minute tenant_id now s.limits).0 ≡ ok tt
      → (check redis settings.requests_per_minute tenant_id now'
          (check redis settings.requests_per_minute tenant_id now s.limits).1).0
        ≡ ok tt
      → ((frees (send s.sent (outgoing settings path request tenant_id)) ≡ true)
          × ((proxy redis settings send path' request' tenant_id
                (some key)
                now'
                (proxy redis settings send path request tenant_id (some key) now s).1).1.sent
              ≡ outgoing settings path' request' tenant_id
                ∷ outgoing settings path request tenant_id
                ∷ s.sent))
        ⊎ ((frees (send s.sent (outgoing settings path request tenant_id)) ≡ false)
            × ((proxy redis settings send path' request' tenant_id
                  (some key)
                  now'
                  (proxy redis settings send path request tenant_id (some key) now s).1).1.sent
                ≡ outgoing settings path request tenant_id ∷ s.sent)
            × ((proxy redis settings send path' request' tenant_id
                  (some key)
                  now'
                  (proxy redis settings send path request tenant_id (some key) now s).1).0
                ≡ err (duplicate_request key)))
  proxy-retry path path' request request' tenant_id key now now' s applies applies' absent passes
        passed =
      let s' = (proxy redis settings send path request tenant_id (some key) now s).1 in
      let one = proxy-first path request tenant_id key now applies s passes absent in
      let passes' : (check redis settings.requests_per_minute tenant_id now' s'.limits).0 ≡ ok tt =
        rw one.limits passed in
      let again = proxy-again path' request' tenant_id key now' applies' s' (codes "1") passes' in
      elim (Bool-cases (frees (send s.sent (outgoing settings path request tenant_id)))) [
        | inl f ↦
            (let two =
                proxy-first path' request' tenant_id key now' applies' s' passes'
                  (ground (arith, one.stored, f)) in
              inl (f, cc (two.calls, one.calls)))
        | inr f ↦
            (let two = again (ground (arith, one.stored, f)) in
              inr (f, cc (two.1, one.calls), two.0))
      ]
