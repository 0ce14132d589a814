-- ===== src/Engine/Executor.antt =====
-- services/workflow-service/app/engine/executor.py: an execution driven from its last checkpoint to
-- completion, pause or an exception, under the execution's lock (locking/redis_lock.py). The
-- heartbeat that renews the lock runs beside it and is not part of this file.
pub mod Outline
pub mod Quiet
pub mod Completes
pub mod Refused
pub mod Works
pub mod Releases
pub mod Stops
pub mod Skips
use sutram.Prelude.{
  ℕ, suc, ◌+◌, String, List, [], ◌∷◌, ◌++◌, Bool, true, false, Option, none, some, Text, codes,
  if◌then◌else◌, Result, ok, err, length, drop,
}
use sutram.Prelude.Floats.{FloatOps}
use sutram.Models.{
  ExecutionStatus, running, paused, completed, failed, cancelled, WorkflowStep, WorkflowDefinition,
  Uuid,
}
use sutram.Events.{
  Event, ExecutionIds, execution_started, step_completed, execution_completed, execution_paused,
}
use sutram.Engine.Fsm.{ExecutionFsm, InvalidTransitionError, transition}
use sutram.Engine.Cost.{CostLimitExceeded, new_tracker, add}
use sutram.Engine.Checkpoint.{Checkpoint, should_checkpoint, write, get_latest}
use sutram.Engine.Exec.{
  other, ExecutionRow, lock_set, lock_release, select_latest, insert_checkpoint, refresh, flush,
  commit, publish, Exn, lock_acquisition, invalid_transition, cost_limit, Host, State, Exec, pure,
  raise, gets, modify, ◌>>=◌, ◌>>◌, attempt, call,
}

-- `check_not_terminal`: whether it raises `ExecutionAlreadyTerminal`.
unfoldable pub is_terminal_status : ExecutionStatus → Bool
is_terminal_status completed = true
is_terminal_status failed = true
is_terminal_status cancelled = true
is_terminal_status _ = false

-- The statuses that an API call sets to stop the loop.
abbrev pub stops : ExecutionStatus → Bool
stops paused = true
stops cancelled = true
stops _ = false

-- The keyword arguments of `_update_status`: left out, or a value for the column.
pub data Column : Type 0 where
  unset : Column
  set_to : Option String → Column

abbrev pub column : Column → Option String → Option String
column unset old = old
column (set_to v) old = v

abbrev pub lock_key : Uuid → Text
lock_key id = codes "execution:" ++ (id ++ codes ":lock")

abbrev pub sse_stream : Uuid → Text
sse_stream id = codes "execution:" ++ id

module _ {V : Type 0} where
  abbrev pub start_after : Option (Checkpoint V) → ℕ
  start_after none = 0
  start_after (some c) = c.step_index + 1

module _ {V F : Type 0} where
  abbrev pub restore : Option (Checkpoint V) → State V F → State V F
  restore none s = s
  restore (some c) s = record s { ctx = record (s.ctx) { variables = c.variables } }

  abbrev pub ids : ExecutionRow V F → ExecutionIds
  ids row = record {
    tenant_id = row.tenant_id;
    execution_id = row.id;
    workflow_id = row.workflow_id;
  }

  -- `fsm.transition(trigger)` on the local machine.
  abbrev lift_transition :
      Result InvalidTransitionError ExecutionStatus × ExecutionFsm → Exec V F (Unit {0})
  lift_transition (ok status, fsm) s = (ok tt, record s { fsm = fsm })
  lift_transition (err e, fsm) s = (err (invalid_transition e), record s { fsm = fsm })

  unfoldable pub fsm_transition : String → Exec V F (Unit {0})
  unfolding transition
  fsm_transition trigger s = lift_transition (transition s.fsm trigger) s

module _ {V F : Type 0} (num : FloatOps F) (host : Host V F) where
  -- `_publish`: the global stream, then the stream of the execution.
  pub publish_both : Event F → Exec V F (Unit {0})
  publish_both event = do
    id ← gets (λ s. s.row.id)
    call host (publish (codes "executions") event)
    call host (publish (sse_stream id) event)

  pub update_status : ExecutionStatus → Column → Column → Exec V F (Unit {0})
  update_status new_status error_message pause_reason = do
    modify (λ s. record s {
      row = record (s.row) {
        status = new_status;
        last_heartbeat = some (host.now s.trace);
        error_message = column error_message s.row.error_message;
        pause_reason = column pause_reason s.row.pause_reason;
      };
    })
    row ← gets (λ s. s.row)
    call host (flush row)

  -- `cost_tracker.add(step_cost)` with the cost of a simulated step.
  abbrev lift_cost : Result (CostLimitExceeded F) (Unit {0}) → Result (Exn F) (Unit {0})
  lift_cost (ok u) = ok u
  lift_cost (err e) = err (cost_limit e)

  add_step_cost : Exec V F (Unit {0})
  add_step_cost s = (
    lift_cost (add num num.zero s.cost_tracker).0,
    record s { cost_tracker = (add num num.zero s.cost_tracker).1 },
  )

  write_checkpoint : ℕ → WorkflowStep → Exec V F (Unit {0})
  unfolding should_checkpoint
  write_checkpoint i step =
      if should_checkpoint step.config
      then (do
        s ← gets (λ s. s)
        call host
            (insert_checkpoint (write s.row.id s.row.tenant_id step.config.name i s.ctx.variables))
        call host commit)
      else pure tt

  -- The body of the loop after the status check.
  pub run_step : ℕ → WorkflowStep → Exec V F (Unit {0})
  run_step i step = do
    modify (λ s. record s { current_step_name = step.config.name })
    write_checkpoint i step
    add_step_cost
    modify (λ s.
        let ctx = record (s.ctx) {
          current_step_index = i + 1;
          total_cost_usd = num.add s.ctx.total_cost_usd num.zero;
        } in
        record s { ctx = ctx; row = record (s.row) { context = ctx } })
    s ← gets (λ s. s)
    publish_both (
        step_completed (ids s.row) (record {
          step_name = step.config.name;
          step_index = i;
          duration_ms = host.elapsed_ms s.trace;
          cost_usd = num.zero;
          outputs = record { simulated = true; step = step.config.name };
        }))
    row ← gets (λ s. s.row)
    call host (flush row)

  -- `session.refresh(execution)`.
  pub refresh_row : Exec V F (Unit {0})
  refresh_row = do
    before ← gets (λ s. s)
    call host (refresh before.row.id)
    modify (λ s. record s { row = host.refreshed before.trace })

  -- The loop from index `i` over the steps that are left: `false` where the method returns from
  -- inside the loop.
  pub step_loop : ℕ → List WorkflowStep → Exec V F Bool
  step_loop i [] = pure true
  step_loop i (step ∷ rest) = do
    refresh_row
    status ← gets (λ s. s.row.status)
    if stops status then pure false else do run_step i step; step_loop (suc i) rest

  -- The two `except` clauses round the loop.
  pub on_exception : Exn F → Exec V F Bool
  on_exception (cost_limit e) = do
    fsm_transition "cost_exceeded"
    update_status paused unset (set_to (some "cost_limit_exceeded"))
    s ← gets (λ s. s)
    publish_both (
        execution_paused (ids s.row)
          (record { pause_reason = "cost_limit_exceeded"; paused_at_step = s.current_step_name }))
    call host commit
    pure false
  on_exception exc = do
    fsm_transition "error"
    update_status paused (set_to (some (host.text_of exc))) unset
    s ← gets (λ s. s)
    publish_both (
        execution_paused (ids s.row)
          (record { pause_reason = "error"; paused_at_step = s.current_step_name }))
    call host commit
    pure false

  pub finish : ℕ → Exec V F (Unit {0})
  finish total_steps = do
    duration ← gets (λ s. host.elapsed_ms s.trace)
    fsm_transition "all_steps_done"
    update_status completed unset unset
    s ← gets (λ s. s)
    publish_both (
        execution_completed (ids s.row) (record {
          status = completed;
          total_duration_ms = duration;
          total_cost_usd = s.cost_tracker.total;
          total_steps = total_steps;
        }))
    call host commit

  -- `checkpoint_mgr.get_latest`, the variables of the checkpoint, and the first step to run.
  pub load_checkpoint : Exec V F ℕ
  unfolding get_latest
  load_checkpoint = do
    s ← gets (λ s. s)
    call host (select_latest s.row.id)
    modify (restore (get_latest host.query (host.checkpoints s.trace) s.row.id))
    pure (start_after (get_latest host.query (host.checkpoints s.trace) s.row.id))

  -- From the transition to RUNNING on.
  pub run_from : WorkflowDefinition → ℕ → Exec V F (Unit {0})
  run_from definition start_index = do
    fsm_transition "submit"
    update_status running unset unset
    row ← gets (λ s. s.row)
    publish_both (execution_started (ids row))
    call host commit
    done ← attempt (step_loop start_index (drop start_index definition.steps)) on_exception
    if done then finish (length definition.steps) else pure tt

  -- What runs under the lock.
  pub run_locked : WorkflowDefinition → Exec V F (Unit {0})
  run_locked definition = load_checkpoint >>= run_from definition

  -- `async with lock.acquire(key, ttl_seconds=30)`: on every way out the heartbeat task is
  -- awaited and then the lock is released. An exception of the heartbeat skips the release; either
  -- takes the place of the body's.
  abbrev after_release :
      {A : Type 0} → Result (Exn F) A → Result (Exn F) (Unit {0}) → Result (Exn F) A
  after_release r (ok u) = r
  after_release r (err e) = err e

  release_after :
      {A : Type 0}
      → Text
      → Option String
      → Result (Exn F) A
      → State V F
      → Result (Exn F) A × State V F
  release_after key none r s =
      (after_release r (call host (lock_release key) s).0, (call host (lock_release key) s).1)
  release_after key (some message) r s = (err (other message), s)

  release : {A : Type 0} → Text → Result (Exn F) A × State V F → Result (Exn F) A × State V F
  unfolding release_after
  release key (r, s) = release_after key (host.heartbeat s.trace) r s

  pub with_lock : {A : Type 0} → Text → Exec V F A → Exec V F A
  unfolding release
  with_lock key body = do
    got ← gets (λ s. host.acquired s.trace)
    call host (lock_set key 30)
    if got then (λ s. release key (body s)) else raise (lock_acquisition key)

  -- The handler of `LockAcquisitionError`: any other exception goes on to the caller.
  abbrev swallow_lock : Exn F → Exec V F (Unit {0})
  swallow_lock (lock_acquisition key) = pure tt
  swallow_lock exc = raise exc

  abbrev pub initial : F → F → ExecutionRow V F → State V F
  initial max_per_execution max_per_day row = record {
    row = row;
    ctx = row.context;
    cost_tracker = new_tracker num max_per_execution max_per_day;
    fsm = record { status = row.status };
    current_step_name = "unknown";
    trace = [];
  }

  pub run : WorkflowDefinition → F → F → ExecutionRow V F → Result (Exn F) (Unit {0}) × State V F
  run definition max_per_execution max_per_day row =
      attempt (with_lock (lock_key row.id) (run_locked definition)) swallow_lock
        (initial max_per_execution max_per_day row)
