-- ===== src/Webhooks/UrlValidator.antt =====
-- services/workflow-service/app/webhooks/url_validator.py: which URLs a webhook may have. The URL
-- parser, the resolver and the parser of addresses are parameters; an address is a number.
pub mod Ranges
use sutram.Prelude.{
  ℕ, ◌/◌, ◌==◌, List, [], ◌∷◌, Bool, true, false, ◌||◌, not, Option, none, some, Text, codes,
  text_eq, any, if◌then◌else◌, Result, ok, err,
}

pub data IpAddress : Type 0 where
  v4 v6 : ℕ → IpAddress

-- A network by its first address and the number of its addresses, a power of two.
pub data IpNetwork : Type 0 where
  v4_network v6_network : ℕ → ℕ → IpNetwork

-- `ip in network`.
abbrev pub contains : IpNetwork → IpAddress → Bool
contains (v4_network first size) (v4 n) = n / size == first / size
contains (v6_network first size) (v6 n) = n / size == first / size
contains _ _ = false

-- In the source's order: 10.0.0.0/8, 172.16.0.0/12, 192.168.0.0/16, 127.0.0.0/8, 169.254.0.0/16,
-- 0.0.0.0/32, ::1/128, fc00::/7, fe80::/10, ::ffff:0:0/96.
abbrev pub blocked_networks : List IpNetwork
blocked_networks =
    v4_network 167772160 16777216
    ∷ v4_network 2886729728 1048576
    ∷ v4_network 3232235520 65536
    ∷ v4_network 2130706432 16777216
    ∷ v4_network 2851995648 65536
    ∷ v4_network 0 1
    ∷ v6_network 1 1
    ∷ v6_network 334965454937798799971759379190646833152 2658455991569831745807614120560689152
    ∷ v6_network 338288524927261089654018896841347694592 332306998946228968225951765070086144
    ∷ v6_network 281470681743360 4294967296
    ∷ []

pub record ParsedUrl : Type 0 where
  pub scheme : Text
  pub hostname : Option Text

pub data WebhookUrlError : Type 0 where
  invalid_url bad_scheme no_hostname unresolved : WebhookUrlError
  private_address : Text → WebhookUrlError

module _ (urlparse : Text → Option ParsedUrl) (getaddrinfo : Text → Option (List Text))
    (ip_address : Text → Option IpAddress) where
  abbrev pub is_blocked : Option IpAddress → Bool
  is_blocked none = false
  is_blocked (some ip) = any (λ network. contains network ip) blocked_networks

  -- The loop over the results: text that is no address is passed over.
  unfoldable pub check_addresses : List Text → Result WebhookUrlError (Unit {0})
  check_addresses [] = ok tt
  check_addresses (ip_str ∷ results) =
      let rest = check_addresses results in
      if is_blocked (ip_address ip_str) then err (private_address ip_str) else rest

  check_resolved : Option (List Text) → Result WebhookUrlError (Unit {0})
  check_resolved none = err unresolved
  check_resolved (some results) = check_addresses results

  -- `if not hostname`: none or empty.
  check_hostname : Option Text → Result WebhookUrlError (Unit {0})
  unfolding check_resolved
  check_hostname none = err no_hostname
  check_hostname (some []) = err no_hostname
  check_hostname (some (c ∷ s)) = check_resolved (getaddrinfo (c ∷ s))

  check_parsed : Option ParsedUrl → Result WebhookUrlError (Unit {0})
  unfolding check_hostname
  check_parsed none = err invalid_url
  check_parsed (some parsed) =
      if text_eq parsed.scheme (codes "https") || text_eq parsed.scheme (codes "http")
      then check_hostname parsed.hostname
      else err bad_scheme

  unfoldable pub validate_webhook_url : Text → Result WebhookUrlError (Unit {0})
  unfolding check_parsed
  validate_webhook_url url = check_parsed (urlparse url)
