-- ===== src/Database/Health.antt =====
-- The route /health of the services, whose code is the same in each app/main.py: a PING to the Redis
-- of the streams and SELECT 1 in a session of the database.
use sutram.Prelude.{
  ℕ, Bool, true, false, Option, none, some, List, [], ◌∷◌, ◌++◌, Text, codes, if◌then◌else◌, Result,
  ok, err, ◌↔◌, ◌≡◌, refl, arith,
}
use sutram.Prelude.Program.{Program}
use sutram.Database.Sessions.{AsyncSession, get_db_session_context}

-- A JSONResponse by its status and by the names that it gives as unreachable.
pub record HealthResponse : Type 0 where
  pub status_code : ℕ
  pub unreachable : List Text

unfoldable pub report : List Text → HealthResponse
report [] = record { status_code = 200; unreachable = [] }
report (e ∷ errors) = record { status_code = 503; unreachable = e ∷ errors }

unfoldable pub error_if : Text → Bool → List Text
error_if name down = if down then name ∷ [] else []

-- `ping` says whether a PING returns.
unfoldable pub redis_down : {R : Type 0} → (R → Bool) → Option R → Bool
redis_down ping none = true
redis_down ping (some redis) = if ping redis then false else true

unfoldable pub is_error : {E A : Type 0} → Result E A → Bool
is_error (ok a) = false
is_error (err e) = true

-- Of two checks, the report is 200 exactly if both are good.
pub report-error_if :
    (m n : Text) (a b : Bool)
    → (report (error_if m a ++ error_if n b)).status_code ≡ 200 ↔ (a ≡ false) × (b ≡ false)
unfolding report error_if
report-error_if m n false false = (λ h. (refl, refl), λ h. refl)
report-error_if m n false true = (λ h. (refl, ground (arith, h)), λ h. ground (arith, h))
report-error_if m n true false = (λ h. (ground (arith, h), refl), λ h. ground (arith, h))
report-error_if m n true true =
    (λ h. (ground (arith, h), ground (arith, h)), λ h. ground (arith, h))

module _ {S D R E A : Type 0} (sql : AsyncSession S D) where
  unfoldable pub service_health :
      (R → Bool) → Option R → Bool → Program E S A → S → HealthResponse × S
  unfolding error_if redis_down is_error get_db_session_context
  service_health ping redis_streams initialized select_1 s =
      let (r, s') = get_db_session_context sql initialized select_1 s in
      (
        report (
            error_if (codes "redis") (redis_down ping redis_streams)
            ++ error_if (codes "db") (is_error r)),
        s',
      )

  -- /health answers 200 exactly if the Redis client is there and answers a PING, and a session of the
  -- database runs the query and commits.
  pub service_health_iff :
      (ping : R → Bool) (redis_streams : Option R) (initialized : Bool) (select_1 : Program E S A)
      (s : S)
      → (service_health ping redis_streams initialized select_1 s).0.status_code ≡ 200
        ↔ (redis_down ping redis_streams ≡ false)
          × (is_error (get_db_session_context sql initialized select_1 s).0 ≡ false)
  unfolding service_health
  service_health_iff ping redis_streams initialized select_1 s =
      report-error_if (codes "redis") (codes "db") (redis_down ping redis_streams)
        (is_error (get_db_session_context sql initialized select_1 s).0)

-- Whether the variable of the session factory is set.
abbrev pub is_initialized : {Q : Type 0} → Option Q → Bool
is_initialized none = false
is_initialized (some factory) = true
