-- ===== src/Gateway/Headers/Downstream.antt =====
-- The headers of a forwarded request as a downstream service reads them: proxy.py, then
-- get_tenant_id_from_header of services/workflow-service/app/dependencies.py.
use sutram.Prelude.{
  List, [], ◌∷◌, ◌++◌, Bool, true, false, ◌≡◌, refl, ap, Option, none, some, Text, codes, text_eq,
  text_eq_iff, if◌then◌else◌, Bool-cases, inl, inr, ◌∙◌, sym, All,
}
use mathlib.Core.List.{append-nil}
use sutram.Models.{Uuid}
use sutram.Prelude.Dicts.{Dict, set_item, get_item}
use sutram.Gateway.Headers.{
  collect, is_forwarded, tenant_header, internal_token_header, build_forward_headers, lower,
  is_hop_by_hop,
}
use sutram.Gateway.Headers.Lookup.{or_else, last_value, get_item-collect}
use sutram.Workflows.Dependencies.{get_tenant_id_from_header, tenant_of}

-- The value of the first header with a name, whatever the case of its letters.
unfoldable pub first_value : Text → Dict → Option Text
first_value name [] = none
first_value name ((j, v) ∷ d) =
    let rest = first_value name d in if text_eq (lower j) (lower name) then some v else rest

-- Names in lower case, as an ASGI server hands them on.
abbrev pub AreLower : Dict → Type 0
AreLower = All (λ item. lower item.0 ≡ item.0)

set_item-AreLower : (k v : Text) (d : Dict) → lower k ≡ k → AreLower d → AreLower (set_item k v d)
set_item-AreLower k v [] e h = (e, tt)
set_item-AreLower k v ((j, w) ∷ d) e h = elim (Bool-cases (text_eq j k)) [
  | inl s ↦ rw s (h.0, h.1)
  | inr s ↦ rw s (h.0, set_item-AreLower k v d e h.1)
]

collect-AreLower :
    (keep : Text → Bool) (items : List (Text × Text)) (d : Dict)
    → AreLower items
    → AreLower d
    → AreLower (collect keep items d)
collect-AreLower keep [] d h l = l
collect-AreLower keep ((k, v) ∷ items) d h l = elim (Bool-cases (keep k)) [
  | inl s ↦ rw s (collect-AreLower keep items (set_item k v d) h.1 (set_item-AreLower k v d h.0 l))
  | inr s ↦ rw s (collect-AreLower keep items d h.1 l)
]

first_value-lower :
    (name : Text) (d : Dict) → AreLower d → first_value name d ≡ get_item (lower name) d
unfolding first_value
first_value-lower name [] h = refl
first_value-lower name ((j, v) ∷ d) h = rw (h.0) (rw (first_value-lower name d h.1) refl)

first_value-append :
    (name : Text) (d e : Dict)
    → first_value name (d ++ e) ≡ or_else (first_value name d) (first_value name e)
unfolding first_value
first_value-append name [] e = refl
first_value-append name ((j, v) ∷ d) e = elim (Bool-cases (text_eq (lower j) (lower name))) [
  | inl s ↦ rw s refl
  | inr s ↦ rw s (first_value-append name d e)
]

-- A name that is not in lower case is not among names that are.
set_item-append :
    (k v : Text) (d e : Dict)
    → text_eq (lower k) k ≡ false
    → AreLower d
    → set_item k v (d ++ e) ≡ d ++ set_item k v e
set_item-append k v [] e u h = refl
set_item-append k v ((j, w) ∷ d) e u h = elim (Bool-cases (text_eq j k)) [
  | inl s ↦
      (let same : j ≡ k = (text_eq_iff j k).0 s in
        let low : lower k ≡ k = ap lower (sym same) ∙ (h.0 ∙ same) in
        cc (u, (text_eq_iff (lower k) k).1 low))
  | inr s ↦ rw s (rw (set_item-append k v d e u h.1) refl)
]

or_else_assoc : (a b : Option Text) → or_else (or_else a none) b ≡ or_else a b
or_else_assoc none b = refl
or_else_assoc (some v) b = refl

module _ (items : List (Text × Text)) (tenant_id : Uuid) (token : Text)
    (handed : AreLower items) where
  abbrev kept : Dict
  kept = collect is_forwarded items []

  abbrev injected : Dict
  injected = (internal_token_header, token) ∷ (tenant_header, tenant_id) ∷ []

  build_forward_headers-append : build_forward_headers items tenant_id token ≡ kept ++ injected
  unfolding build_forward_headers
  build_forward_headers-append =
      let low = collect-AreLower is_forwarded items [] handed tt in
      let first : set_item internal_token_header token kept
          ≡ kept ++ (internal_token_header, token) ∷ [] =
        ap (set_item internal_token_header token) (sym (append-nil kept))
        ∙ set_item-append internal_token_header token kept [] refl low in
      ap (set_item tenant_header tenant_id) first
      ∙ set_item-append tenant_header tenant_id kept ((internal_token_header, token) ∷ []) refl low

  first_value-build_forward_headers :
      (name : Text)
      → is_forwarded (lower name) ≡ true
      → first_value name (build_forward_headers items tenant_id token)
        ≡ or_else (last_value (lower name) items) (first_value name injected)
  first_value-build_forward_headers name f = rw build_forward_headers-append (
      first_value-append name kept injected
      ∙ rw (first_value-lower name kept (collect-AreLower is_forwarded items [] handed tt)) (
          rw (get_item-collect is_forwarded (lower name) items [])
            (rw f (or_else_assoc (last_value (lower name) items) (first_value name injected)))))

  -- Where a server hands header names on in lower case, and a service looks a header up whatever the
  -- case of its name and takes the first, a request that the gateway forwards for a tenant reaches the
  -- service as one of that tenant only if the client has sent no x-tenant-id of its own: if it has,
  -- the service acts for the tenant that the client names. Likewise the token is the gateway's unless
  -- the client has sent an x-internal-token.
  pub get_tenant_id_from_header-build_forward_headers :
      (header : Text → Dict → Option Text) (uuid : Text → Option Uuid) (expected : Text)
      → ((name : Text) (d : Dict) → header name d ≡ first_value name d)
      → get_tenant_id_from_header header uuid expected (build_forward_headers items tenant_id token)
        ≡ tenant_of uuid expected
            (or_else (last_value (codes "x-internal-token") items) (some token))
            (or_else (last_value (codes "x-tenant-id") items) (some tenant_id))
  unfolding get_tenant_id_from_header is_forwarded is_hop_by_hop first_value
  get_tenant_id_from_header-build_forward_headers header uuid expected looks =
      let d = build_forward_headers items tenant_id token in
      rw
        (looks (codes "X-Internal-Token") d
          ∙ first_value-build_forward_headers (codes "X-Internal-Token") refl)
        (rw
          (looks (codes "X-Tenant-ID") d
            ∙ first_value-build_forward_headers (codes "X-Tenant-ID") refl)
          refl)
