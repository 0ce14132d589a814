-- ===== src/Webhooks/UrlValidator/Ranges.antt =====
-- url_validator.py: the addresses of an accepted URL, as ranges of numbers.
use sutram.Prelude.{
  ℕ, ◌≤◌, ◌<◌, List, [], ◌∷◌, true, false, ◌≡◌, ◌⊎◌, refl, arith, Option, none, some, Text, codes,
  text_eq, ok, All, ◌||◌, Bool-cases, Option-cases, inl, inr,
}
use sutram.Webhooks.UrlValidator.{
  IpAddress, v4, v6, ParsedUrl, is_blocked, check_addresses, check_resolved, check_hostname,
  check_parsed, validate_webhook_url,
}

-- The number is below the range or not below its end.
abbrev pub IsOutside : ℕ → ℕ → ℕ → Type 0
IsOutside first after n = (n < first) ⊎ (after ≤ n)

-- Outside 10.*, 172.16.* to 172.31.*, 192.168.*, 127.*, 169.254.* and 0.0.0.0, and outside ::1,
-- fc00:: to fdff::, fe80:: to febf:: and the IPv4-mapped addresses.
pub record IsPublicV4 (n : ℕ) : Type 0 where
  pub ten : IsOutside 167772160 184549376 n
  pub twelve : IsOutside 2886729728 2887778304 n
  pub sixteen : IsOutside 3232235520 3232301056 n
  pub loopback : IsOutside 2130706432 2147483648 n
  pub link_local : IsOutside 2851995648 2852061184 n
  pub unspecified : 1 ≤ n

pub record IsPublicV6 (n : ℕ) : Type 0 where
  pub loopback6 : IsOutside 1 2 n
  pub private6 :
      IsOutside 334965454937798799971759379190646833152 337623910929368631717566993311207522304 n
  pub link_local6 :
      IsOutside 338288524927261089654018896841347694592 338620831926207318622244848606417780736 n
  pub mapped : IsOutside 281470681743360 281474976710656 n

abbrev pub IsPublic : IpAddress → Type 0
IsPublic (v4 n) = IsPublicV4 n
IsPublic (v6 n) = IsPublicV6 n

abbrev pub AllPublic : Option IpAddress → Type 0
AllPublic none = Unit
AllPublic (some ip) = IsPublic ip

module _ (urlparse : Text → Option ParsedUrl) (getaddrinfo : Text → Option (List Text))
    (ip_address : Text → Option IpAddress) where
  outside-v4 :
      (n : ℕ) → is_blocked urlparse getaddrinfo ip_address (some (v4 n)) ≡ false → IsPublicV4 n
  outside-v4 n h = record {
    ten = ground (arith, h);
    twelve = ground (arith, h);
    sixteen = ground (arith, h);
    loopback = ground (arith, h);
    link_local = ground (arith, h);
    unspecified = ground (arith, h);
  }

  outside-v6 :
      (n : ℕ) → is_blocked urlparse getaddrinfo ip_address (some (v6 n)) ≡ false → IsPublicV6 n
  outside-v6 n h = record {
    loopback6 = ground (arith, h);
    private6 = ground (arith, h);
    link_local6 = ground (arith, h);
    mapped = ground (arith, h);
  }

  outside :
      (o : Option IpAddress) → is_blocked urlparse getaddrinfo ip_address o ≡ false → AllPublic o
  outside none h = tt
  outside (some (v4 n)) h = outside-v4 n h
  outside (some (v6 n)) h = outside-v6 n h

  check_addresses-public :
      (results : List Text)
      → check_addresses urlparse getaddrinfo ip_address results ≡ ok tt
      → All (λ t. AllPublic (ip_address t)) results
  unfolding check_addresses
  check_addresses-public [] h = tt
  check_addresses-public (t ∷ results) h =
      elim (Bool-cases (is_blocked urlparse getaddrinfo ip_address (ip_address t))) [
        | inl e ↦ (let bad = rw e at h in cc bad)
        | inr e ↦ (outside (ip_address t) e, check_addresses-public results (rw e at h))
      ]

  hostname-public :
      (hostname : Option Text)
      → check_hostname urlparse getaddrinfo ip_address hostname ≡ ok tt
      → (host : Text) × (results : List Text) × (hostname ≡ some host)
        × (getaddrinfo host ≡ some results)
        × All (λ t. AllPublic (ip_address t)) results
  unfolding check_hostname check_resolved
  hostname-public none h = cc
  hostname-public (some []) h = cc
  hostname-public (some (c ∷ s)) h = elim (Option-cases (getaddrinfo (c ∷ s))) [
    | inl e ↦ (let bad = rw e at h in cc bad)
    | inr (results, e) ↦ (c ∷ s, results, refl, e, check_addresses-public results (rw e at h))
  ]

  -- An accepted URL has the scheme http or https and a host name that resolves, and every address
  -- that it resolves to lies outside the private, loopback, link-local and mapped ranges, written as
  -- numbers.
  pub validate_webhook_url-public :
      (url : Text)
      → validate_webhook_url urlparse getaddrinfo ip_address url ≡ ok tt
      → (parsed : ParsedUrl) × (host : Text) × (results : List Text) × (urlparse url ≡ some parsed)
        × ((text_eq parsed.scheme (codes "https") || text_eq parsed.scheme (codes "http")) ≡ true)
        × (parsed.hostname ≡ some host)
        × (getaddrinfo host ≡ some results)
        × All (λ t. AllPublic (ip_address t)) results
  unfolding validate_webhook_url check_parsed
  validate_webhook_url-public url h = elim (Option-cases (urlparse url)) [
    | inl e ↦ (let bad = rw e at h in cc bad)
    | inr (parsed, e) ↦
        (let h' = rw e at h in
          elim (Bool-cases
            (text_eq parsed.scheme (codes "https") || text_eq parsed.scheme (codes "http"))) [
              | inl t ↦
                  (let (host, results, named, resolved, safe) =
                      hostname-public parsed.hostname (rw t at h') in
                    (parsed, host, results, e, t, named, resolved, safe))
              | inr t ↦ (let bad = rw t at h' in cc bad)
            ])
  ]
