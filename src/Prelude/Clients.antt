-- ===== src/Prelude/Clients.antt =====
-- What the services' app/dependencies.py share: the clients that a service opens once are variables,
-- and a variable that is not set is a RuntimeError where it is asked for.

use mathlib.Core.Option.{Option, none, some}
use sutram.Prelude.Outcome.{Result, ok, err}
use sutram.Prelude.Program.{Program, pure, raise}

-- ValueError is what a client library raises for a URL that it refuses.
pub data ClientError : Type 0 where
  runtime_error value_error : ClientError

-- A variable that is set, or RuntimeError.
abbrev pub initialized : {A : Type 0} → Option A → Result ClientError A
initialized none = err runtime_error
initialized (some a) = ok a

-- What `from_url` answers, which is nothing where it raises.
abbrev pub opened : {S R : Type 0} → Option R → Program ClientError S R
opened none = raise value_error
opened (some r) = pure r
