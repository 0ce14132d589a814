-- ===== src/Tests/Urls.antt =====
-- The theorem of the URL validator at a public address.
use sutram.Prelude.{List, [], ◌∷◌, true, ◌≡◌, refl, Option, some, codes, text_eq, All, Text, ◌||◌}
use sutram.Webhooks.UrlValidator.{IpAddress, v4, ParsedUrl, validate_webhook_url, check_addresses}
use sutram.Webhooks.UrlValidator.Ranges.{AllPublic, validate_webhook_url-public}

abbrev urlparse : Text → Option ParsedUrl
urlparse url = some (record { scheme = codes "https"; hostname = some url })

abbrev getaddrinfo : Text → Option (List Text)
getaddrinfo host = some (codes "8.8.8.8" ∷ [])

abbrev ip_address : Text → Option IpAddress
ip_address t = some (v4 134744072)

validate_webhook_url-public_example :
    (parsed : ParsedUrl) × (host : Text) × (results : List Text) × (urlparse (codes "a")
      ≡ some parsed)
    × ((text_eq parsed.scheme (codes "https") || text_eq parsed.scheme (codes "http")) ≡ true)
    × (parsed.hostname ≡ some host)
    × (getaddrinfo host ≡ some results)
    × All (λ t. AllPublic (ip_address t)) results
unfolding validate_webhook_url check_addresses
validate_webhook_url-public_example =
    validate_webhook_url-public urlparse getaddrinfo ip_address (codes "a") refl
