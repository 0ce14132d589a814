-- ===== src/Workflows/Dependencies.antt =====
-- services/workflow-service/app/dependencies.py: the tenant of a request, from its headers. How
-- FastAPI looks a header up and reads a UUID are parameters; a header that is missing or no UUID is
-- answered by 422.
use sutram.Prelude.{Option, none, some, Text, codes, Result, ok, err}
use sutram.Prelude.Dicts.{Dict}
use sutram.Models.{Uuid}
use sutram.Middleware.InternalAuth.{InternalAuthError, verify_internal_token}

-- HTTPException with status 401, and a request that does not validate.
pub data TenantError : Type 0 where
  unauthorized : InternalAuthError → TenantError
  unprocessable : TenantError

abbrev verified : Uuid → Result InternalAuthError (Unit {0}) → Result TenantError Uuid
verified tenant_id (ok u) = ok tenant_id
verified tenant_id (err e) = err (unauthorized e)

-- `get_tenant_id_from_header` on the two headers, and on those of a request.
abbrev pub tenant_of :
    (Text → Option Uuid) → Text → Option Text → Option Text → Result TenantError Uuid
tenant_of uuid expected none tenant = err unprocessable
tenant_of uuid expected (some token) none = err unprocessable
tenant_of uuid expected (some token) (some tenant) = elim (uuid tenant) [
  | none ↦ err unprocessable
  | some tenant_id ↦ verified tenant_id (verify_internal_token token expected)
]

unfoldable pub get_tenant_id_from_header :
    (Text → Dict → Option Text) → (Text → Option Uuid) → Text → Dict → Result TenantError Uuid
get_tenant_id_from_header header uuid expected headers =
    tenant_of uuid expected (header (codes "X-Internal-Token") headers)
      (header (codes "X-Tenant-ID") headers)
