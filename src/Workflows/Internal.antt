-- ===== src/Workflows/Internal.antt =====
-- services/workflow-service/app/routes/internal.py: the tenant's settings for the other services. `J`
-- is the JSON of the settings; a header that is missing is answered by 422.
use sutram.Prelude.{
  Option, none, some, List, [], ◌∷◌, Text, text_eq, if◌then◌else◌, Result, ok, err, ◌≡◌, Bool-cases,
  inl, Option-cases, inr, arith, text_eq_iff,
}
use sutram.Models.{Uuid}
use sutram.Middleware.InternalAuth.{InternalAuthError, verify_internal_token}

pub record Tenant (J : Type 0) : Type 0 where
  pub id : Uuid
  pub name : Text
  pub settings : J

-- HTTPException with status 401 and 404, and a request that does not validate.
pub data InternalError : Type 0 where
  unauthorized : InternalAuthError → InternalError
  not_found unprocessable : InternalError

abbrev or_unauthorized : Result InternalAuthError (Unit {0}) → Result InternalError (Unit {0})
or_unauthorized (ok u) = ok tt
or_unauthorized (err e) = err (unauthorized e)

-- `_verify_internal` on the header X-Internal-Token.
unfoldable pub verify_internal : Text → Option Text → Result InternalError (Unit {0})
verify_internal expected none = err unprocessable
verify_internal expected (some token) = or_unauthorized (verify_internal_token token expected)

module _ {J : Type 0} where
  -- `select(TenantORM).where(TenantORM.id == tenant_id)` on a table of unique ids.
  unfoldable pub find_tenant : Uuid → List (Tenant J) → Option (Tenant J)
  find_tenant tenant_id [] = none
  find_tenant tenant_id (t ∷ ts) =
      let rest = find_tenant tenant_id ts in if text_eq t.id tenant_id then some t else rest

  abbrev or_not_found : Option (Tenant J) → Result InternalError (Tenant J)
  or_not_found none = err not_found
  or_not_found (some t) = ok t

  abbrev after_check :
      Result InternalError (Unit {0})
      → Result InternalError (Tenant J)
      → Result InternalError (Tenant J)
  after_check (ok u) answer = answer
  after_check (err e) answer = err e

  -- The route, behind the router's dependency.
  unfoldable pub get_tenant :
      Text → Option Text → Uuid → List (Tenant J) → Result InternalError (Tenant J)
  unfolding verify_internal find_tenant
  get_tenant expected token tenant_id tenants =
      after_check (verify_internal expected token) (or_not_found (find_tenant tenant_id tenants))

  find_tenant-id :
      (tenant_id : Uuid) (tenants : List (Tenant J)) (t : Tenant J)
      → find_tenant tenant_id tenants ≡ some t
      → t.id ≡ tenant_id
  unfolding find_tenant
  find_tenant-id tenant_id [] t = λ h. ground (arith, h)
  find_tenant-id tenant_id (u ∷ us) t = elim (Bool-cases (text_eq u.id tenant_id)) [
    | inl e ↦ rw e (λ h. cc (h, (text_eq_iff u.id tenant_id).0 e))
    | inr e ↦ rw e (find_tenant-id tenant_id us t)
  ]

  -- A tenant is answered only to a request with the expected token, and is the one asked for.
  pub get_tenant-ok :
      (expected : Text) (token : Option Text) (tenant_id : Uuid) (tenants : List (Tenant J))
      (t : Tenant J)
      → get_tenant expected token tenant_id tenants ≡ ok t
      → (token ≡ some expected) × (find_tenant tenant_id tenants ≡ some t) × (t.id ≡ tenant_id)
  unfolding get_tenant verify_internal verify_internal_token
  get_tenant-ok expected none tenant_id tenants t = λ h. ground (arith, h)
  get_tenant-ok expected (some token) tenant_id tenants t =
      elim (Bool-cases (text_eq token expected)) [
        | inl e ↦ elim (Option-cases (find_tenant tenant_id tenants)) [
          | inl k ↦ rw e (rw k (λ h. ground (arith, h)))
          | inr (t', k) ↦
              let same = (text_eq_iff token expected).0 e in
              let id = find_tenant-id tenant_id tenants t' k in
              rw e (rw k (λ h. (cc same, cc h, cc (h, id))))
        ]
        | inr e ↦ rw e (λ h. ground (arith, h))
      ]
