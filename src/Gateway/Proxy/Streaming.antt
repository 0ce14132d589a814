-- ===== src/Gateway/Proxy/Streaming.antt =====
-- services/api-gateway/app/routes/proxy.py: `event_stream` of `_proxy_sse`, the body of a streamed
-- response. What the downstream service answers is a parameter; the time limit is left out.
use sutram.Prelude.{
  ok, ℕ, List, [], Bool, true, false, Option, none, some, Text, ◌==◌, if◌then◌else◌, ◌≡◌, refl, ◌≢◌,
  ◌↔◌, Option-cases, text_eq, inl, codes, inr, text_eq_iff, Bool-cases, arith,
}
use sutram.Prelude.Dicts.{Dict}
use sutram.Gateway.Proxy.{
  Forwarded, StreamingResponse, streaming, idempotency_applies, is_sse, Request, Upstream, proxy,
  proxy_sse, forward, check_rate_limit, full_path, Gateway,
}
use sutram.Redis.{Redis}
use sutram.Gateway.Headers.{ApiGatewaySettings, downstream_url, build_forward_headers}
use sutram.Models.{Uuid}
use sutram.Middleware.RateLimit.{check}

-- The response of `client.stream`: its chunks, and whether the connection breaks after them.
pub record Streamed : Type 0 where
  pub status_code : ℕ
  pub chunks : List Text
  pub breaks : Bool

-- What ends a body early: the HTTPException of the generator, or an exception of the HTTP client.
pub data StreamFault : Type 0 where
  http_exception : ℕ → StreamFault
  client_error : StreamFault

-- What the client of the gateway gets: the status line and headers, the chunks, and how they end.
pub record Received : Type 0 where
  pub status_code : ℕ
  pub headers : Dict
  pub chunks : List Text
  pub fault : Option StreamFault

abbrev pub broken : Bool → Option StreamFault
broken true = some client_error
broken false = none

-- The chunks that the generator yields, and its exception.
unfoldable pub event_stream : Option Streamed → List Text × Option StreamFault
event_stream none = ([], some client_error)
event_stream (some response) =
    if response.status_code == 200 then (response.chunks, broken response.breaks) else (
      [],
      if response.breaks then some client_error else some (http_exception response.status_code),
    )

-- The server sends the status and the headers of a response before it reads the body.
unfoldable pub receive : (Forwarded → Option Streamed) → StreamingResponse → Received
unfolding event_stream
receive stream response = record {
  status_code = response.status_code;
  headers = response.headers;
  chunks = (event_stream (stream response.event_stream)).0;
  fault = (event_stream (stream response.event_stream)).1;
}

-- The chunks are all those of the downstream service if it answers 200, and none otherwise; the end
-- is regular only after an answer of 200 that does not break.
pub data IsRelayed : Option Streamed → Received → Type 0 where
  unreachable : {r : Received} → r.chunks ≡ [] → r.fault ≡ some client_error → IsRelayed none r
  refused :
      {response : Streamed} {r : Received}
      → (response.status_code == 200) ≡ false
      → r.chunks ≡ []
      → r.fault ≢ none
      → IsRelayed (some response) r
  relayed :
      {response : Streamed} {r : Received}
      → (response.status_code == 200) ≡ true
      → r.chunks ≡ response.chunks
      → (r.fault ≡ none) ↔ (response.breaks ≡ false)
      → IsRelayed (some response) r

broken-none : (b : Bool) → (broken b ≡ none) ↔ (b ≡ false)
broken-none true = (λ h. cc h, λ h. cc h)
broken-none false = (λ h. refl, λ h. refl)

refusal-ne-none :
    (b : Bool) (n : ℕ) → (if b then some client_error else some (http_exception n)) ≢ none
refusal-ne-none true n = λ h. cc h
refusal-ne-none false n = λ h. cc h

receive-IsRelayed :
    (stream : Forwarded → Option Streamed) (response : StreamingResponse)
    → IsRelayed (stream response.event_stream) (receive stream response)
unfolding receive
receive-IsRelayed stream response = elim (Option-cases (stream response.event_stream)) [
  | inl e ↦ rw e (unreachable refl refl)
  | inr (answer, e) ↦ elim (Bool-cases (answer.status_code == 200)) [
    | inl good ↦ rw e (relayed good (rw good refl) (rw good (broken-none answer.breaks)))
    | inr bad ↦
        rw e (refused bad (rw bad refl) (rw bad (refusal-ne-none answer.breaks answer.status_code)))
  ]
]

not_post :
    (method : Text) → text_eq method (codes "GET") ≡ true → text_eq method (codes "POST") ≡ false
not_post method h = rw ((text_eq_iff method (codes "GET")).0 h) refl

sse_not_applies :
    (path : Text) (request : Request)
    → is_sse path request ≡ true
    → idempotency_applies path request ≡ false
unfolding idempotency_applies is_sse
sse_not_applies path request h = ground (arith, h, not_post request.method)

abbrev pub stream_reply : ApiGatewaySettings → Text → Request → Uuid → StreamingResponse
stream_reply settings path request tenant_id =
    proxy_sse (downstream_url (full_path path) settings)
      (build_forward_headers request.header_items tenant_id settings.internal_auth_token)
      request.query_params

module _ {Db : Type 0} (redis : Redis Db) (settings : ApiGatewaySettings)
    (send : List Forwarded → Forwarded → Option Upstream) where
  -- A GET request to a path that ends in /stream, if its rate limit passes it, is always answered by
  -- status 200, before the downstream service has been asked: nothing is buffered, no idempotency
  -- key is touched, and only then are the chunks relayed, if the service answers 200; where it
  -- answers any other status or none, the body is empty and ends in an exception.
  pub proxy-IsRelayed :
      (stream : Forwarded → Option Streamed) (path : Text) (request : Request) (tenant_id : Uuid)
      (key : Option Text) (now : ℕ) (s : Gateway Db)
      → is_sse path request ≡ true
      → (check redis settings.requests_per_minute tenant_id now s.limits).0 ≡ ok tt
      → (proxy redis settings send path request tenant_id key now s ≡ (
        ok (streaming (stream_reply settings path request tenant_id)),
        record s { limits = (check redis settings.requests_per_minute tenant_id now s.limits).1 },
      ))
        × ((receive stream (stream_reply settings path request tenant_id)).status_code ≡ 200)
        × IsRelayed
            (stream (stream_reply settings path request tenant_id).event_stream)
            (receive stream (stream_reply settings path request tenant_id))
  unfolding proxy forward check_rate_limit proxy_sse receive
  proxy-IsRelayed stream path request tenant_id key now s sse passes = (
    rw passes (rw (sse_not_applies path request sse) (rw sse refl)),
    refl,
    receive-IsRelayed stream (stream_reply settings path request tenant_id),
  )
