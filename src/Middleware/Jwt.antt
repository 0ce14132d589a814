-- ===== src/Middleware/Jwt.antt =====
-- packages/core/sutram_core/middleware/auth.py: the decoding of a JSON Web Token. The functions of
-- the jose library and the settings are parameters.
use sutram.Prelude.{
  Bool, true, false, not, [], ◌∷◌, Option, none, some, Text, text_eq, text_eq_iff, text_eq_refl,
  codes, Result, ok, err, ok_inj, if◌then◌else◌, ◌≡◌, refl, ◌↔◌, Bool-cases, inl, inr,
}

-- An exception of jose: ExpiredSignatureError, or another JWTError.
pub data JoseError : Type 0 where
  expired_signature jwt_error : JoseError

pub record AuthError : Type 0 where
  pub expired : Bool

-- `header` reads the algorithm of a token without a check, `decode` checks the token with a secret
-- and one algorithm, `has` is membership of a claim.
pub record Jose (Claims : Type 0) : Type 0 where
  pub header : Text → Result JoseError (Option Text)
  pub decode : Text → Text → Text → Result JoseError Claims
  pub has : Text → Claims → Bool

pub record JwtSettings : Type 0 where
  pub jwt_secret : Text
  pub jwt_algorithm : Text

-- `algorithm or get_jwt_algorithm()`
unfoldable pub algorithm_or : Option Text → JwtSettings → Text
algorithm_or none settings = settings.jwt_algorithm
algorithm_or (some []) settings = settings.jwt_algorithm
algorithm_or (some (c ∷ cs)) settings = c ∷ cs

unfoldable pub is_alg : Option Text → Text → Bool
is_alg none alg = false
is_alg (some a) alg = text_eq a alg

unfoldable pub auth_error : JoseError → AuthError
auth_error expired_signature = record { expired = true }
auth_error jwt_error = record { expired = false }

module _ {Claims : Type 0} (jose : Jose Claims) (settings : JwtSettings) where
  check_claims : Result JoseError Claims → Result AuthError Claims
  unfolding auth_error
  check_claims (err e) = err (auth_error e)
  check_claims (ok claims) =
      if not (jose.has (codes "tenant_id") claims)
      then err (record { expired = false })
      else if not (jose.has (codes "exp") claims)
      then err (record { expired = false })
      else ok claims

  check_header : Text → Text → Result JoseError (Option Text) → Result AuthError Claims
  unfolding check_claims is_alg
  check_header token alg (err e) = err (auth_error e)
  check_header token alg (ok header) =
      if not (is_alg header alg)
      then err (record { expired = false })
      else check_claims (jose.decode token settings.jwt_secret alg)

  unfoldable pub decode_jwt : Text → Option Text → Result AuthError Claims
  unfolding check_header algorithm_or
  decode_jwt token algorithm =
      let alg = algorithm_or algorithm settings in check_header token alg (jose.header token)

  -- What an accepted token is: its header names the configured algorithm, jose accepts it with the
  -- secret and that algorithm, and it has both claims.
  abbrev pub IsAccepted : Text → Text → Claims → Type 0
  IsAccepted token alg claims =
      (jose.header token ≡ ok (some alg))
      × (jose.decode token settings.jwt_secret alg ≡ ok claims)
      × (jose.has (codes "tenant_id") claims ≡ true)
      × (jose.has (codes "exp") claims ≡ true)

  check_claims-ok :
      (r : Result JoseError Claims) (claims : Claims)
      → check_claims r ≡ ok claims
      → (r ≡ ok claims)
        × (jose.has (codes "tenant_id") claims ≡ true)
        × (jose.has (codes "exp") claims ≡ true)
  unfolding check_claims
  check_claims-ok (err e) claims = λ h. cc h
  check_claims-ok (ok c) claims = elim (Bool-cases (jose.has (codes "tenant_id") c)) [
    | inr t ↦ rw t (λ h. cc h)
    | inl t ↦ elim (Bool-cases (jose.has (codes "exp") c)) [
      | inr e ↦ rw t (rw e (λ h. cc h))
      | inl e ↦
          rw t (rw e (λ h. let same = ok_inj c claims h in (cc same, cc (same, t), cc (same, e))))
    ]
  ]

  check_header-ok :
      (token alg : Text) (r : Result JoseError (Option Text)) (claims : Claims)
      → check_header token alg r ≡ ok claims
      → (r ≡ ok (some alg)) × (check_claims (jose.decode token settings.jwt_secret alg) ≡ ok claims)
  unfolding check_header is_alg
  check_header-ok token alg (err e) claims = λ h. cc h
  check_header-ok token alg (ok none) claims = λ h. cc h
  check_header-ok token alg (ok (some a)) claims = elim (Bool-cases (text_eq a alg)) [
    | inl e ↦ let same = (text_eq_iff a alg).0 e in rw e (λ h. (cc same, h))
    | inr e ↦ rw e (λ h. cc h)
  ]

  -- A token is accepted with some claims exactly if its unverified header names the configured
  -- algorithm, jose accepts it with the secret and that algorithm alone, and both the tenant and
  -- the expiry are among the claims.
  pub decode_jwt-IsAccepted :
      (token : Text) (algorithm : Option Text) (claims : Claims)
      → (decode_jwt token algorithm ≡ ok claims)
        ↔ IsAccepted token (algorithm_or algorithm settings) claims
  unfolding decode_jwt check_header check_claims is_alg
  decode_jwt-IsAccepted token algorithm claims =
      let alg = algorithm_or algorithm settings in
      (
        (λ h.
            let (header, checked) = check_header-ok token alg (jose.header token) claims h in
            let (a, b, c) =
              check_claims-ok (jose.decode token settings.jwt_secret alg) claims checked in
            (header, a, b, c)),
        λ (header, decoded, tenant, exp).
            rw header (rw (text_eq_refl alg) (rw decoded (rw tenant (rw exp refl)))),
      )
