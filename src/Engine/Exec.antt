-- ===== src/Engine/Exec.antt =====
-- What the executor's code runs in: its local variables and the execution row as a state, the calls
-- that leave the process as a trace (the latest first), and exceptions as values. What the database,
-- the lock and the streams answer is a `Host`, a parameter that may depend on all earlier calls.
pub mod Preserves
use sutram.Prelude.{ℕ, String, List, ◌∷◌, Bool, Option, none, some, Text, Result, ok, err}
use sutram.Models.{Uuid, ExecutionStatus, ExecutionContext}
use sutram.Events.{Event}
use sutram.Engine.Fsm.{ExecutionFsm, InvalidTransitionError}
use sutram.Engine.Cost.{CostTracker, CostLimitExceeded}
use sutram.Engine.Checkpoint.{Checkpoint, LatestQuery}

-- The columns of `WorkflowExecutionORM` that the engine reads or writes.
pub record ExecutionRow (V F : Type 0) : Type 0 where
  pub id : Uuid
  pub tenant_id : Uuid
  pub workflow_id : Uuid
  pub status : ExecutionStatus
  pub context : ExecutionContext V F
  pub error_message : Option String
  pub pause_reason : Option String
  pub last_heartbeat : Option ℕ

pub data Call (V F : Type 0) : Type 0 where
  lock_set : Text → ℕ → Call V F
  lock_release : Text → Call V F
  select_latest : Uuid → Call V F
  insert_checkpoint : Checkpoint V → Call V F
  refresh : Uuid → Call V F
  flush : ExecutionRow V F → Call V F
  commit : Call V F
  publish : Text → Event F → Call V F

pub data Exn (F : Type 0) : Type 0 where
  lock_acquisition : Text → Exn F
  invalid_transition : InvalidTransitionError → Exn F
  cost_limit : CostLimitExceeded F → Exn F
  other : String → Exn F

-- The answers of the outside world, after the calls made so far.
pub record Host (V F : Type 0) : Type 0 where
  -- The exception that a call raises, if it raises.
  pub raises : List (Call V F) → Call V F → Option String
  -- Whether `SET key token NX EX ttl` has set the key.
  pub acquired : List (Call V F) → Bool
  -- What the heartbeat task has raised when the block under the lock ends, if it has failed.
  pub heartbeat : List (Call V F) → Option String
  -- The row that a refresh reads.
  pub refreshed : List (Call V F) → ExecutionRow V F
  -- The rows of the checkpoint table, and how it is queried.
  pub checkpoints : List (Call V F) → List (Checkpoint V)
  pub query : LatestQuery (Checkpoint V)
  -- `datetime.now(UTC)`, and the time between two readings of the monotonic clock.
  pub now : List (Call V F) → ℕ
  pub elapsed_ms : List (Call V F) → ℕ
  -- `str(exc)`.
  pub text_of : Exn F → String

pub record State (V F : Type 0) : Type 0 where
  pub row : ExecutionRow V F
  pub ctx : ExecutionContext V F
  pub cost_tracker : CostTracker F
  pub fsm : ExecutionFsm
  pub current_step_name : String
  pub trace : List (Call V F)

abbrev pub Exec : Type 0 → Type 0 → Type 0 → Type 0
Exec V F A = State V F → Result (Exn F) A × State V F

module _ {F : Type 0} where
  abbrev pub answer : Option String → Result (Exn F) (Unit {0})
  answer none = ok tt
  answer (some message) = err (other message)

module _ {V F : Type 0} where
  abbrev pub pure : {A : Type 0} → A → Exec V F A
  pure a s = (ok a, s)

  abbrev pub raise : {A : Type 0} → Exn F → Exec V F A
  raise e s = (err e, s)

  abbrev pub gets : {A : Type 0} → (State V F → A) → Exec V F A
  gets f s = (ok (f s), s)

  abbrev pub modify : (State V F → State V F) → Exec V F (Unit {0})
  modify f s = (ok tt, f s)

  abbrev pub continue : {A B : Type 0} → Result (Exn F) A → (A → Exec V F B) → Exec V F B
  continue (ok a) f s = f a s
  continue (err e) f s = (err e, s)

  infixl 5 ◌>>=◌ ◌>>◌
  abbrev pub ◌>>=◌ : {A B : Type 0} → Exec V F A → (A → Exec V F B) → Exec V F B
  ◌>>=◌ m f s = continue (m s).0 f (m s).1

  abbrev pub ◌>>◌ : {B : Type 0} → Exec V F (Unit {0}) → Exec V F B → Exec V F B
  m >> n = m >>= λ _. n

  abbrev pub handle : {A : Type 0} → Result (Exn F) A → (Exn F → Exec V F A) → Exec V F A
  handle (ok a) h s = (ok a, s)
  handle (err e) h s = h e s

  -- `try: m` with `except` clauses that take every exception of `Exn`.
  abbrev pub attempt : {A : Type 0} → Exec V F A → (Exn F → Exec V F A) → Exec V F A
  attempt m h s = handle (m s).0 h (m s).1

  -- One call of the outside world.
  unfoldable pub call : Host V F → Call V F → Exec V F (Unit {0})
  call host c s = (answer (host.raises s.trace c), record s { trace = c ∷ s.trace })
