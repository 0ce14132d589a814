-- ===== src/Middleware/InternalAuth.antt =====
-- packages/core/sutram_core/middleware/internal_auth.py: the token between the services. The
-- comparison runs in constant time, which the model does not show.
use sutram.Prelude.{Text, text_eq, Result, ok, err, if◌then◌else◌}

pub data InternalAuthError : Type 0 where
  invalid_token : InternalAuthError

unfoldable pub verify_internal_token : Text → Text → Result InternalAuthError (Unit {0})
verify_internal_token token expected = if text_eq token expected then ok tt else err invalid_token
