-- ===== src/Tests/Gateway.antt =====
-- The theorems of the gateway at concrete requests.
use sutram.Prelude.{
  ℕ, List, [], ◌∷◌, true, false, ◌≡◌, refl, Option, none, some, codes, ◌⊎◌, err, str_int, ok,
}
use sutram.Gateway.Headers.{ApiGatewaySettings, build_forward_headers}
use sutram.Gateway.Proxy.{
  Request, Forwarded, Upstream, Gateway, duplicate_request, proxy, idempotency_applies, is_sse,
  streaming,
}
use sutram.Gateway.Proxy.Retries.{outgoing, frees, proxy-retry}
use sutram.Middleware.RateLimit.{check}
use sutram.Tests.Servers.{Db, empty_db, redis}
use sutram.Gateway.Proxy.Streaming.{Streamed, IsRelayed, receive, stream_reply, proxy-IsRelayed}
use sutram.Gateway.Headers.Downstream.{first_value, get_tenant_id_from_header-build_forward_headers}
use sutram.Workflows.Dependencies.{get_tenant_id_from_header}
use sutram.Middleware.InternalAuth.{verify_internal_token}

abbrev settings : ℕ → ApiGatewaySettings
settings limit = record {
  workflow_service_url = codes "http://w";
  memory_service_url = codes "http://m";
  observability_service_url = codes "http://o";
  requests_per_minute = limit;
  internal_auth_token = codes "secret";
}

abbrev failing : List Forwarded → Forwarded → Option Upstream
failing sent request =
    some (record { status_code = 503; header_items = []; content = []; content_type = none })

abbrev post_items : Request
post_items = record {
  method = codes "POST";
  header_items = (codes "x-tenant-id", codes "other") ∷ (codes "authorization", codes "t") ∷ [];
  query_params = [];
  body = codes "x";
}

abbrev fresh : Gateway Db
fresh = record { limits = empty_db; keys = empty_db; sent = [] }

proxy-retry_example :
    ((frees (failing [] (outgoing (settings 5) (codes "memory/items") post_items (codes "ab")))
        ≡ true)
      × ((proxy redis
            (settings 5)
            failing
            (codes "memory/items/")
            post_items
            (codes "ab")
            (some (codes "k"))
            61
            (proxy redis
              (settings 5)
              failing
              (codes "memory/items")
              post_items
              (codes "ab")
              (some (codes "k"))
              60
              fresh).1).1.sent
          ≡ outgoing (settings 5) (codes "memory/items/") post_items (codes "ab")
            ∷ outgoing (settings 5) (codes "memory/items") post_items (codes "ab")
            ∷ []))
    ⊎ ((frees (failing [] (outgoing (settings 5) (codes "memory/items") post_items (codes "ab")))
          ≡ false)
        × ((proxy redis
              (settings 5)
              failing
              (codes "memory/items/")
              post_items
              (codes "ab")
              (some (codes "k"))
              61
              (proxy redis
                (settings 5)
                failing
                (codes "memory/items")
                post_items
                (codes "ab")
                (some (codes "k"))
                60
                fresh).1).1.sent
            ≡ outgoing (settings 5) (codes "memory/items") post_items (codes "ab") ∷ [])
        × ((proxy redis
              (settings 5)
              failing
              (codes "memory/items/")
              post_items
              (codes "ab")
              (some (codes "k"))
              61
              (proxy redis
                (settings 5)
                failing
                (codes "memory/items")
                post_items
                (codes "ab")
                (some (codes "k"))
                60
                fresh).1).0
            ≡ err (duplicate_request (codes "k"))))
unfolding idempotency_applies check str_int
proxy-retry_example =
    proxy-retry redis (settings 5) failing (codes "memory/items") (codes "memory/items/") post_items
      post_items (codes "ab") (codes "k") 60 61 fresh refl refl refl refl refl

abbrev watch : Request
watch = record { method = codes "GET"; header_items = []; query_params = codes ""; body = codes "" }

abbrev gone : Forwarded → Option Streamed
gone request = some (record { status_code = 404; chunks = codes "{}" ∷ []; breaks = false })

proxy-IsRelayed_example :
    (proxy redis (settings 5) failing (codes "executions/7/stream") watch (codes "ab") none 60 fresh
      ≡ (
        ok (streaming (stream_reply (settings 5) (codes "executions/7/stream") watch (codes "ab"))),
        record fresh { limits = (check redis 5 (codes "ab") 60 empty_db).1 },
      ))
    × ((receive gone
          (stream_reply (settings 5) (codes "executions/7/stream") watch (codes "ab"))).status_code
        ≡ 200)
    × IsRelayed
        (gone
          (stream_reply (settings 5) (codes "executions/7/stream") watch (codes "ab")).event_stream)
        (receive gone (stream_reply (settings 5) (codes "executions/7/stream") watch (codes "ab")))
unfolding check is_sse
proxy-IsRelayed_example =
    proxy-IsRelayed redis (settings 5) failing gone (codes "executions/7/stream") watch (codes "ab")
      none 60 fresh refl refl

-- The service acts for the tenant that the client names.
get_tenant_id_from_header-build_forward_headers_example :
    get_tenant_id_from_header first_value some
      (codes "secret")
      (build_forward_headers post_items.header_items (codes "ab") (codes "secret"))
    ≡ ok (codes "other")
unfolding verify_internal_token
get_tenant_id_from_header-build_forward_headers_example =
    get_tenant_id_from_header-build_forward_headers post_items.header_items (codes "ab")
      (codes "secret") (refl, (refl, tt)) first_value some (codes "secret") (λ name d. refl)
