-- ===== src/Gateway/Headers.antt =====
-- services/api-gateway/app/routes/proxy.py: where a request goes and with which headers.
pub mod Lookup
pub mod Downstream
use sutram.Prelude.{
  ℕ, ◌+◌, List, [], ◌∷◌, ◌++◌, map, Bool, true, false, not, ◌&&◌, ◌||◌, Text, codes, text_eq,
  starts_with, leb, ◌==◌, any, if◌then◌else◌,
}
use sutram.Prelude.Dicts.{Dict, set_item}
use sutram.Models.{Uuid}

-- `{k: v for k, v in items if keep(k)}`, onto a dict.
abbrev pub collect : (Text → Bool) → List (Text × Text) → Dict → Dict
collect keep [] d = d
collect keep ((k, v) ∷ items) d =
    let rest = collect keep items (set_item k v d) in
    let skipped = collect keep items d in if keep k then rest else skipped

-- `k.lower()`: header names are decoded as Latin-1, so that their letters are those of ASCII and
-- À to Þ but ×.
abbrev pub lower_letter : ℕ → ℕ
lower_letter c =
    if (leb 65 c && leb c 90) || (leb 192 c && (leb c 222 && not (c == 215))) then c + 32 else c

abbrev pub lower : Text → Text
lower = map lower_letter

abbrev pub hop_by_hop : List Text
hop_by_hop =
    codes "connection"
    ∷ codes "content-length"
    ∷ codes "keep-alive"
    ∷ codes "transfer-encoding"
    ∷ codes "te"
    ∷ codes "trailer"
    ∷ codes "upgrade"
    ∷ codes "proxy-authorization"
    ∷ codes "proxy-authenticate"
    ∷ []

unfoldable pub is_hop_by_hop : Text → Bool
is_hop_by_hop k = any (λ h. text_eq h (lower k)) hop_by_hop

-- Whether a client's header is forwarded.
unfoldable pub is_forwarded : Text → Bool
is_forwarded k = not (is_hop_by_hop k) && not (text_eq (lower k) (codes "authorization"))

abbrev pub internal_token_header : Text
internal_token_header = codes "X-Internal-Token"

abbrev pub tenant_header : Text
tenant_header = codes "X-Tenant-ID"

unfoldable pub build_forward_headers : List (Text × Text) → Uuid → Text → Dict
build_forward_headers items tenant_id internal_token =
    set_item tenant_header tenant_id
      (set_item internal_token_header internal_token (collect is_forwarded items []))

pub record ApiGatewaySettings : Type 0 where
  pub workflow_service_url : Text
  pub memory_service_url : Text
  pub observability_service_url : Text
  pub requests_per_minute : ℕ
  pub internal_auth_token : Text

unfoldable pub downstream_url : Text → ApiGatewaySettings → Text
downstream_url path settings =
    if starts_with path (codes "/v1/memory")
    then settings.memory_service_url ++ path
    else if starts_with path (codes "/v1/traces")
        || (starts_with path (codes "/v1/metrics") || starts_with path (codes "/v1/audit"))
    then settings.observability_service_url ++ path
    else settings.workflow_service_url ++ path
