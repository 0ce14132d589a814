-- ===== src/Gateway/Proxy.antt =====
-- services/api-gateway/app/routes/proxy.py: the handler of every /v1/ path. The HTTP client is a
-- parameter: what the downstream service answers, or that the client raises, after the requests
-- sent so far. Messages for people are left out of the error replies.
pub mod Retries
pub mod Streaming
use sutram.Prelude.{
  ℕ, List, [], ◌∷◌, ◌++◌, Bool, true, false, not, ◌&&◌, ◌||◌, Option, none, some, Text, codes,
  text_eq, starts_with, ends_with, rstrip, leb, if◌then◌else◌, Result, ok, err,
}
use sutram.Prelude.Program.{Program, pure, raise, gets, modify, continue, ◌>>=◌, ◌>>◌}
use sutram.Prelude.Dicts.{Dict}
use sutram.Models.{Uuid}
use sutram.Redis.{Redis}
use sutram.Middleware.RateLimit.{RateLimitExceeded, check}
use sutram.Middleware.Idempotency.{check_and_store, delete}
use sutram.Gateway.Headers.{
  collect, is_hop_by_hop, build_forward_headers, ApiGatewaySettings, downstream_url,
}

pub record Request : Type 0 where
  pub method : Text
  pub header_items : List (Text × Text)
  pub query_params : Text
  pub body : Text

-- A request to a downstream service; `content` is left out of a streaming request.
pub record Forwarded : Type 0 where
  pub method : Text
  pub url : Text
  pub headers : Dict
  pub params : Text
  pub content : Option Text

-- `httpx.Response`; `content_type` is `headers.get("content-type")`.
pub record Upstream : Type 0 where
  pub status_code : ℕ
  pub header_items : List (Text × Text)
  pub content : Text
  pub content_type : Option Text

-- `StreamingResponse`: its body is a generator, which sends this request when it is read.
pub record StreamingResponse : Type 0 where
  pub status_code : ℕ
  pub media_type : Text
  pub headers : Dict
  pub event_stream : Forwarded

pub data Reply : Type 0 where
  buffered : ℕ → Dict → Text → Option Text → Reply
  streaming : StreamingResponse → Reply

pub data Fault : Type 0 where
  rate_limit_exceeded : Fault
  duplicate_request : Text → Fault
  -- An exception of the HTTP client.
  client_error : Fault

pub record Gateway (Db : Type 0) : Type 0 where
  -- The contents of the two Redis databases, and the buffered requests, the latest first.
  pub limits : Db
  pub keys : Db
  pub sent : List Forwarded

abbrev pub scoped_key : Uuid → Text → Text
scoped_key tenant_id key = tenant_id ++ (codes ":" ++ key)

abbrev pub full_path : Text → Text
full_path path = codes "/v1/" ++ path

unfoldable pub idempotency_applies : Text → Request → Bool
idempotency_applies path request =
    let stripped = rstrip b'/' (full_path path) in
    text_eq request.method (codes "POST")
    && (ends_with stripped (codes "/execute") || text_eq stripped (codes "/v1/memory/items"))

unfoldable pub is_sse : Text → Request → Bool
is_sse path request =
    ends_with (full_path path) (codes "/stream") && text_eq request.method (codes "GET")

-- `_proxy_sse`; a response with no status given has 200.
unfoldable pub proxy_sse : Text → Dict → Text → StreamingResponse
proxy_sse target_url forward_headers query_params = record {
  status_code = 200;
  media_type = codes "text/event-stream";
  headers =
      (codes "Cache-Control", codes "no-cache") ∷ (codes "X-Accel-Buffering", codes "no") ∷ [];
  event_stream = record {
    method = codes "GET";
    url = target_url;
    headers = forward_headers;
    params = query_params;
    content = none;
  };
}

module _ {Db : Type 0} (redis : Redis Db) (settings : ApiGatewaySettings)
    (send : List Forwarded → Forwarded → Option Upstream) where
  abbrev pub Handler : Type 0 → Type 0
  Handler A = Program Fault (Gateway Db) A

  abbrev limited : Result RateLimitExceeded (Unit {0}) → Result Fault (Unit {0})
  limited (ok u) = ok u
  limited (err e) = err rate_limit_exceeded

  check_rate_limit : Uuid → ℕ → Handler (Unit {0})
  check_rate_limit tenant_id now s = (
    limited (check redis settings.requests_per_minute tenant_id now s.limits).0,
    record s { limits = (check redis settings.requests_per_minute tenant_id now s.limits).1 },
  )

  check_idempotency : Uuid → Option Text → Handler (Unit {0})
  check_idempotency tenant_id none s = (ok tt, s)
  check_idempotency tenant_id (some key) s = (
    if (check_and_store redis (scoped_key tenant_id key) 86400 s.keys).0
        then err (duplicate_request key)
        else ok tt,
    record s { keys = (check_and_store redis (scoped_key tenant_id key) 86400 s.keys).1 },
  )

  abbrev answered : Option Upstream → Result Fault Upstream
  answered none = err client_error
  answered (some response) = ok response

  -- `client.send`.
  client_send : Forwarded → Handler Upstream
  client_send request s = (answered (send s.sent request), record s { sent = request ∷ s.sent })

  proxy_buffered : Request → Text → Dict → Handler (ℕ × Reply)
  proxy_buffered request target_url forward_headers = do
    response ← client_send (record {
      method = request.method;
      url = target_url;
      headers = forward_headers;
      params = request.query_params;
      content = some request.body;
    })
    pure (
      response.status_code,
      buffered response.status_code (collect (λ k. not (is_hop_by_hop k)) response.header_items [])
          response.content response.content_type,
    )

  -- Step 6: the key of a request that failed downstream is freed.
  free_key : Uuid → Option Text → Bool → ℕ → Handler (Unit {0})
  free_key tenant_id none applies status s = (ok tt, s)
  free_key tenant_id (some key) applies status s =
      if applies && leb 500 status
      then (ok tt, record s { keys = delete redis (scoped_key tenant_id key) s.keys })
      else (ok tt, s)

  -- From step 3 on.
  forward : Text → Request → Uuid → Option Text → Handler Reply
  forward path request tenant_id idempotency_key =
      let target_url = downstream_url (full_path path) settings in
      let forward_headers =
        build_forward_headers request.header_items tenant_id settings.internal_auth_token in
      if is_sse path request
      then pure (streaming (proxy_sse target_url forward_headers request.query_params))
      else (do
        (status, reply) ← proxy_buffered request target_url forward_headers
        free_key tenant_id idempotency_key (idempotency_applies path request) status
        pure reply)

  pub proxy : Text → Request → Uuid → Option Text → ℕ → Handler Reply
  proxy path request tenant_id idempotency_key now = do
    check_rate_limit tenant_id now
    if idempotency_applies path request
        then check_idempotency tenant_id idempotency_key
        else pure tt
    forward path request tenant_id idempotency_key
