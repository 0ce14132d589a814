-- ===== src/Engine/Executor/Works.antt =====
-- executor.py: a property of the calls so far that every call of the body keeps, but for those on
-- the lock and the status check, is kept by each part of the body.
use sutram.Prelude.{ℕ, String, List, ◌∷◌, arith, Option, none, some, Text}
use sutram.Prelude.Floats.{FloatOps}
use sutram.Models.{ExecutionStatus, WorkflowStep, Uuid}
use sutram.Events.{Event}
use sutram.Engine.Exec.{
  ExecutionRow, Call, lock_set, lock_release, select_latest, insert_checkpoint, refresh, flush,
  commit, publish, Host, State, call, cost_limit, Exn,
}
use sutram.Engine.Checkpoint.{Checkpoint}
use sutram.Engine.Exec.Preserves.{Preserves, Preserves-modify, preserves_rules}
use sutram.Engine.Executor.{
  Column, fsm_transition, publish_both, update_status, add_step_cost, write_checkpoint, run_step,
  on_exception, finish, load_checkpoint, restore,
}

module _ {V F : Type 0} where
  -- The calls of the body other than the status check.
  abbrev pub IsWork : Call V F → Type 0
  IsWork (lock_set key ttl) = ⊥
  IsWork (lock_release key) = ⊥
  IsWork (refresh id) = ⊥
  IsWork _ = Unit

module _ {V F : Type 0} (num : FloatOps F) (host : Host V F) (Q : List (Call V F) → Type 0)
    (keep : (c : Call V F) (t : List (Call V F)) → IsWork c → Q t → Q (c ∷ t)) where
  abbrev pub OfTrace : State V F → Type 0
  OfTrace s = Q s.trace

  call-work : (c : Call V F) → IsWork c → Preserves OfTrace (call host c)
  unfolding call
  call-work c i = record { after = λ s q. keep c s.trace i q }

  flush-work : (row : ExecutionRow V F) → Preserves OfTrace (call host (flush row))
  flush-work row = call-work (flush row) tt

  pub commit-work : Preserves OfTrace (call host commit)
  commit-work = call-work commit tt

  publish-work : (stream : Text) (e : Event F) → Preserves OfTrace (call host (publish stream e))
  publish-work stream e = call-work (publish stream e) tt

  insert-work : (c : Checkpoint V) → Preserves OfTrace (call host (insert_checkpoint c))
  insert-work c = call-work (insert_checkpoint c) tt

  select-work : (id : Uuid) → Preserves OfTrace (call host (select_latest id))
  select-work id = call-work (select_latest id) tt

  ruleset work_calls = (
    preserves_rules, Preserves-modify, flush-work, commit-work, publish-work, insert-work,
    select-work,
  )

  pub fsm_transition-work : (trigger : String) → Preserves OfTrace (fsm_transition trigger)
  unfolding fsm_transition
  fsm_transition-work trigger = record { after = λ s q. ground arith }

  pub publish_both-work : (e : Event F) → Preserves OfTrace (publish_both num host e)
  unfolding publish_both
  publish_both-work e = search work_calls

  pub update_status-work :
      (new_status : ExecutionStatus) (e p : Column)
      → Preserves OfTrace (update_status num host new_status e p)
  unfolding update_status
  update_status-work new_status e p = search work_calls

  add_step_cost-work : Preserves OfTrace (add_step_cost num host)
  unfolding add_step_cost
  add_step_cost-work = record { after = λ s q. q }

  write_checkpoint-work :
      (i : ℕ) (step : WorkflowStep) → Preserves OfTrace (write_checkpoint num host i step)
  unfolding write_checkpoint
  write_checkpoint-work i step = search work_calls depth 8

  ruleset works = (
    work_calls, fsm_transition-work, publish_both-work, update_status-work, add_step_cost-work,
    write_checkpoint-work,
  )

  pub run_step-work : (i : ℕ) (step : WorkflowStep) → Preserves OfTrace (run_step num host i step)
  unfolding run_step
  run_step-work i step = search works depth 12

  pub on_exception-work : (e : Exn F) → Preserves OfTrace (on_exception num host e)
  unfolding on_exception
  on_exception-work (cost_limit e) = search works depth 12
  on_exception-work e = search works depth 12

  pub finish-work : (total : ℕ) → Preserves OfTrace (finish num host total)
  unfolding finish
  finish-work total = search works depth 12

  restore-work : (c : Option (Checkpoint V)) (s : State V F) → OfTrace s → OfTrace (restore c s)
  restore-work none s q = q
  restore-work (some c) s q = q

  pub load_checkpoint-work : Preserves OfTrace (load_checkpoint num host)
  unfolding load_checkpoint
  load_checkpoint-work = search (works, restore-work) depth 12
