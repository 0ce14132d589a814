-- ===== src/Gateway/Clients/Phases.antt =====
-- app/dependencies.py: the states that the clients can be in.
use sutram.Prelude.{Option, some, Text, ok, err, List, [], ◌∷◌, ◌≡◌, refl, Option-cases, inl, inr}
use sutram.Prelude.Clients.{runtime_error}
use sutram.Gateway.Clients.{
  Clients, ClientSettings, closed, init_clients, close_clients, get_http_client, get_rate_limiter,
  get_idempotency_store,
}

-- A call, with the HTTP client made and what `from_url` answers.
pub data Call (H R : Type 0) : Type 0 where
  init : H → (Text → Option R) → Call H R
  close : Call H R

module _ {H R : Type 0} (settings : ClientSettings) where
  perform : Call H R → Clients H R → Clients H R
  perform (init http from_url) s = (init_clients settings http from_url s).1
  perform close s = (close_clients s).1

  unfoldable pub perform_all : List (Call H R) → Clients H R → Clients H R
  unfolding perform
  perform_all [] s = s
  perform_all (call ∷ calls) s = perform_all calls (perform call s)

  -- The clients are all closed; or all open, the limiter with the configured limit on the client of
  -- its own; or they are half open, after a `from_url` that raised, with an HTTP client but neither
  -- limiter nor store.
  pub data IsPhase (s : Clients H R) : Type 0 where
    all_closed : s ≡ closed → IsPhase s
    all_open :
        {http : H} {rate keys : R}
        → get_http_client s ≡ ok http
        → get_rate_limiter s
          ≡ ok (record { redis = rate; requests_per_minute = settings.requests_per_minute })
        → get_idempotency_store s ≡ ok keys
        → s.redis_rate_limit ≡ some rate
        → s.redis_idempotency ≡ some keys
        → IsPhase s
    half_open :
        {http : H}
        → get_http_client s ≡ ok http
        → get_rate_limiter s ≡ err runtime_error
        → get_idempotency_store s ≡ err runtime_error
        → IsPhase s

  init_clients-twice :
      (http http' : H) (from_url : Text → Option R) (s : Clients H R)
      → get_http_client s ≡ ok http
      → init_clients settings http' from_url s ≡ (err runtime_error, s)
  unfolding init_clients get_http_client
  init_clients-twice http http' from_url s = elim (Option-cases s.http_client) [
    | inl e ↦ rw e (λ h. cc h)
    | inr (h', e) ↦ rw e (λ h. refl)
  ]

  init_clients-closed :
      (http : H) (from_url : Text → Option R)
      → IsPhase (init_clients settings http from_url closed).1
  unfolding init_clients get_http_client get_rate_limiter get_idempotency_store
  init_clients-closed http from_url = elim (Option-cases (from_url settings.redis_rate_limit_url)) [
    | inl e ↦ rw e (half_open refl refl refl)
    | inr (rate, e) ↦ elim (Option-cases (from_url settings.redis_idempotency_url)) [
      | inl k ↦ rw e (rw k (half_open refl refl refl))
      | inr (keys, k) ↦ rw e (rw k (all_open refl refl refl refl refl))
    ]
  ]

  init_clients-IsPhase :
      (http : H) (from_url : Text → Option R) (s : Clients H R)
      → IsPhase s
      → IsPhase (init_clients settings http from_url s).1
  init_clients-IsPhase http from_url s (all_closed e) = rw e (init_clients-closed http from_url)
  init_clients-IsPhase http from_url s (all_open {http = h} a b c d e) =
      rw (init_clients-twice h http from_url s a) (all_open a b c d e)
  init_clients-IsPhase http from_url s (half_open {http = h} a b c) =
      rw (init_clients-twice h http from_url s a) (half_open a b c)

  perform-IsPhase : (call : Call H R) (s : Clients H R) → IsPhase s → IsPhase (perform call s)
  unfolding perform close_clients
  perform-IsPhase (init http from_url) s p = init_clients-IsPhase http from_url s p
  perform-IsPhase close s p = all_closed refl

  perform_all-IsPhase_from :
      (calls : List (Call H R)) (s : Clients H R) → IsPhase s → IsPhase (perform_all calls s)
  unfolding perform_all
  perform_all-IsPhase_from [] s p = p
  perform_all-IsPhase_from (call ∷ calls) s p =
      perform_all-IsPhase_from calls (perform call s) (perform-IsPhase call s p)

  -- Whatever calls of `init_clients` and `close_clients` are made one after the other, and whichever of
  -- them raise, the gateway's clients are all closed, all open with the configured limit, or half
  -- open after a Redis URL that was refused; the limiter and the store are never there without each
  -- other or without an HTTP client.
  pub perform_all-IsPhase : (calls : List (Call H R)) → IsPhase (perform_all calls closed)
  perform_all-IsPhase calls = perform_all-IsPhase_from calls closed (all_closed refl)
