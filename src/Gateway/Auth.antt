-- ===== src/Gateway/Auth.antt =====
-- services/api-gateway/app/middleware/auth.py: the tenant of a request, from its bearer token. The
-- JWT library and the UUID parser are parameters. A `tenant_id` claim is taken to be text.
use sutram.Prelude.{ℕ, Bool, true, false, Option, none, some, Text, Result, ok, err, if◌then◌else◌}
use sutram.Models.{Uuid}

-- The claims that the code reads: absent, or with their value.
pub record Claims : Type 0 where
  pub tenant_id : Option Text
  pub exp : Option ℕ

-- What `jwt.decode` raises.
pub data JwtError : Type 0 where
  expired_signature invalid_jwt : JwtError

-- `AuthError`, by its `expired` flag.
pub record AuthError : Type 0 where
  pub expired : Bool

pub data Detail : Type 0 where
  missing_token token_expired invalid_token : Detail

-- `HTTPException(status_code, detail)`.
pub record HttpException : Type 0 where
  pub status_code : ℕ
  pub detail : Detail

module _ (jwt_decode : Text → Text → Text → Result JwtError Claims)
    (parse_uuid : Text → Option Uuid) where
  check_present : Claims → Option Text → Option ℕ → Result AuthError (Text × Claims)
  check_present claims none exp = err (record { expired = false })
  check_present claims (some tenant) none = err (record { expired = false })
  check_present claims (some tenant) (some exp) = ok (tenant, claims)

  check_claims : Result JwtError Claims → Result AuthError (Text × Claims)
  unfolding check_present
  check_claims (ok claims) = check_present claims claims.tenant_id claims.exp
  check_claims (err expired_signature) = err (record { expired = true })
  check_claims (err invalid_jwt) = err (record { expired = false })

  -- `_decode_jwt`, with the tenant claim beside the claims.
  unfoldable pub decode_jwt : Text → Text → Text → Result AuthError (Text × Claims)
  unfolding check_claims
  decode_jwt token secret algorithm = check_claims (jwt_decode token secret algorithm)

  abbrev unauthorized : {A : Type 0} → Detail → Result HttpException A
  unauthorized detail = err (record { status_code = 401; detail = detail })

  tenant_of : Option Uuid → Result HttpException Uuid
  tenant_of none = unauthorized invalid_token
  tenant_of (some id) = ok id

  from_claims : Result AuthError (Text × Claims) → Result HttpException Uuid
  unfolding tenant_of
  from_claims (err e) = unauthorized (if e.expired then token_expired else invalid_token)
  from_claims (ok (tenant, claims)) = tenant_of (parse_uuid tenant)

  unfoldable pub get_tenant_id : Text → Text → Option Text → Result HttpException Uuid
  unfolding from_claims
  get_tenant_id secret algorithm none = unauthorized missing_token
  get_tenant_id secret algorithm (some token) = from_claims (decode_jwt token secret algorithm)
