-- ===== src/Engine/Fsm.antt =====
-- services/workflow-service/app/engine/state_machine.py: the status machine of an execution.
pub mod Runs
use sutram.Prelude.{
  String, List, [], ◌∷◌, Option, none, some, Bool, true, false, ◌≡◌, str_eq, if◌then◌else◌, Result,
  ok, err,
}
use sutram.Models.{ExecutionStatus, pending, running, paused, completed, failed, cancelled}

-- `_TRANSITIONS.get(status, {})`: the triggers of a status with their targets.
abbrev pub transitions : ExecutionStatus → List (String × ExecutionStatus)
transitions pending = ("submit", running) ∷ []
transitions running =
    ("all_steps_done", completed)
    ∷ ("error", paused)
    ∷ ("cost_exceeded", paused)
    ∷ ("manual_pause", paused)
    ∷ ("fatal_error", failed)
    ∷ ("max_retries_exceeded", failed)
    ∷ ("cancel", cancelled)
    ∷ []
transitions paused = ("resume", pending) ∷ ("cancel", cancelled) ∷ []
transitions _ = []

-- `valid[trigger]` of a dictionary with string keys.
abbrev pub lookup {ℓ} : {A : Type ℓ} → String → List (String × A) → Option A
lookup k [] = none
lookup k ((j, v) ∷ m) = if str_eq j k then some v else lookup k m

pub record InvalidTransitionError : Type 0 where
  pub status : ExecutionStatus
  pub trigger : String

pub record ExecutionFsm : Type 0 where
  pub status : ExecutionStatus

apply_target :
    ExecutionFsm
    → String
    → Option ExecutionStatus
    → Result InvalidTransitionError ExecutionStatus × ExecutionFsm
apply_target fsm trigger none = (err (record { status = fsm.status; trigger = trigger }), fsm)
apply_target fsm trigger (some next) = (ok next, record fsm { status = next })

-- The method returns the new status and leaves it in the object.
unfoldable pub transition :
    ExecutionFsm → String → Result InvalidTransitionError ExecutionStatus × ExecutionFsm
unfolding apply_target
transition fsm trigger = apply_target fsm trigger (lookup trigger (transitions fsm.status))

is_some {ℓ} : {A : Type ℓ} → Option A → Bool
is_some none = false
is_some (some a) = true

unfoldable pub can_transition : ExecutionFsm → String → Bool
unfolding is_some
can_transition fsm trigger = is_some (lookup trigger (transitions fsm.status))
