-- ===== src/Gateway/Headers/Lookup.antt =====
-- proxy.py: what each header of a forwarded request is, by its name as the dict spells it.
use sutram.Prelude.{
  List, [], ◌∷◌, Bool, true, false, ◌≡◌, refl, ap, arith, Option, none, some, Text, text_eq,
  text_eq_iff, if◌then◌else◌, Bool-cases, inl, inr, ◌∙◌, sym,
}
use sutram.Models.{Uuid}
use sutram.Prelude.Dicts.{Dict, set_item, get_item}
use sutram.Gateway.Headers.{
  collect, is_forwarded, tenant_header, internal_token_header, build_forward_headers,
}

abbrev pub or_else : Option Text → Option Text → Option Text
or_else none o = o
or_else (some v) o = some v

-- The value of the last item with a name.
abbrev pub last_value : Text → List (Text × Text) → Option Text
last_value k [] = none
last_value k ((j, v) ∷ items) =
    let rest = last_value k items in or_else rest (if text_eq j k then some v else none)

text_eq_trans : (i j k : Text) → text_eq i j ≡ true → text_eq i k ≡ text_eq j k
text_eq_trans i j k h = rw ((text_eq_iff i j).0 h) refl

apart : (i j k : Text) → text_eq i j ≡ false → text_eq i k ≡ true → text_eq j k ≡ false
apart i j k ne h = elim (Bool-cases (text_eq j k)) [
  | inl e ↦
      (let i_is : i ≡ k = (text_eq_iff i k).0 h in
        let j_is : j ≡ k = (text_eq_iff j k).0 e in cc (ne, (text_eq_iff i j).1 (i_is ∙ sym j_is)))
  | inr e ↦ e
]

get_item-set_item :
    (k j v : Text) (d : Dict)
    → get_item k (set_item j v d) ≡ (if text_eq j k then some v else get_item k d)
get_item-set_item k j v [] = refl
get_item-set_item k j v ((i, w) ∷ d) =
    let later = get_item-set_item k j v d in
    let same = text_eq_trans i j k in
    elim (Bool-cases (text_eq i j)) [
      | inl e ↦ rw e (ground (arith, same e))
      | inr e ↦ rw e (ground (arith, later, apart i j k e))
    ]

pub get_item-collect :
    (keep : Text → Bool) (k : Text) (items : List (Text × Text)) (d : Dict)
    → get_item k (collect keep items d)
      ≡ (if keep k then or_else (last_value k items) (get_item k d) else get_item k d)
get_item-collect keep k [] d = ground arith
get_item-collect keep k ((j, v) ∷ items) d =
    let kept = get_item-collect keep k items (set_item j v d) in
    let skipped = get_item-collect keep k items d in
    let put = get_item-set_item k j v d in
    let same : text_eq j k ≡ true → keep j ≡ keep k = λ h. ap keep ((text_eq_iff j k).0 h) in
    elim (Bool-cases (keep j)) [
      | inl e ↦ rw e (ground (arith, kept, put, same, e))
      | inr e ↦ rw e (ground (arith, skipped, same, e))
    ]

-- Every header of a forwarded request: the tenant and the internal token are the gateway's, and any
-- other name has the last value that the client gave it, or none if the name is not forwarded. Names
-- are compared as they are spelt, so that a client's `x-tenant-id` is forwarded beside `X-Tenant-ID`.
pub get_item-build_forward_headers :
    (k : Text) (items : List (Text × Text)) (tenant_id : Uuid) (internal_token : Text)
    → get_item k (build_forward_headers items tenant_id internal_token) ≡ (
        if text_eq tenant_header k
        then some tenant_id
        else if text_eq internal_token_header k
        then some internal_token
        else if is_forwarded k
        then last_value k items
        else none)
unfolding build_forward_headers
get_item-build_forward_headers k items tenant_id internal_token =
    let kept = collect is_forwarded items [] in
    ground (
      arith,
      get_item-set_item k tenant_header tenant_id
          (set_item internal_token_header internal_token kept),
      get_item-set_item k internal_token_header internal_token kept,
      get_item-collect is_forwarded k items [],
    )
