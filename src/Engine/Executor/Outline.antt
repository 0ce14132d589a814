-- ===== src/Engine/Executor/Outline.antt =====
-- executor.py: the order of the calls that a run makes, with their contents reduced to what shows
-- which step they belong to.
use sutram.Prelude.{ℕ, suc, String, List, [], ◌∷◌, map, Text, codes, if◌then◌else◌}
use sutram.Models.{ExecutionStatus, running, completed, WorkflowStep, Uuid}
use sutram.Events.{
  Event, execution_started, step_completed, step_failed, execution_completed, execution_paused,
  memory_written, memory_searched,
}
use sutram.Engine.Exec.{
  Call, lock_set, lock_release, select_latest, insert_checkpoint, refresh, flush, commit, publish,
}
use sutram.Engine.Executor.{lock_key, sse_stream}

pub data Kind : Type 0 where
  start : Kind
  ran : String → ℕ → Kind
  done : ExecutionStatus → ℕ → Kind
  held : String → String → Kind
  foreign : Kind

pub data Mark : Type 0 where
  locked unlocked : Text → Mark
  looked read : Uuid → Mark
  saved : String → ℕ → Mark
  flushed : ExecutionStatus → Mark
  committed : Mark
  sent : Text → Kind → Mark

module _ {F : Type 0} where
  abbrev pub kind : Event F → Kind
  kind (execution_started ids) = start
  kind (step_completed ids e) = ran e.step_name e.step_index
  kind (execution_completed ids e) = done e.status e.total_steps
  kind (execution_paused ids e) = held e.pause_reason e.paused_at_step
  kind (step_failed ids e) = foreign
  kind (memory_written e) = foreign
  kind (memory_searched e) = foreign

module _ {V F : Type 0} where
  abbrev pub mark : Call V F → Mark
  mark (lock_set key ttl) = locked key
  mark (lock_release key) = unlocked key
  mark (select_latest id) = looked id
  mark (insert_checkpoint c) = saved c.step_name c.step_index
  mark (refresh id) = read id
  mark (flush row) = flushed row.status
  mark commit = committed
  mark (publish stream e) = sent stream (kind e)

  -- The calls so far, the latest first.
  abbrev pub outline : List (Call V F) → List Mark
  outline = map mark

-- One event on both streams, onto the calls before it.
abbrev pub both : Uuid → Kind → List Mark → List Mark
both id k before = sent (sse_stream id) k ∷ sent (codes "executions") k ∷ before

-- The calls of one step: its status check, its checkpoint if it wants one, committed, and only
-- then its event.
abbrev pub step_marks : Uuid → ExecutionStatus → ℕ → WorkflowStep → List Mark → List Mark
step_marks id status i step before =
    flushed status
    ∷ both id (ran step.config.name i) (
        if step.config.checkpoint_before
        then committed ∷ saved step.config.name i ∷ read id ∷ before
        else read id ∷ before)

abbrev pub loop_marks : Uuid → ℕ → List WorkflowStep → List Mark → List Mark
loop_marks id i [] before = before
loop_marks id i (step ∷ rest) before =
    loop_marks id (suc i) rest (step_marks id running i step before)

-- A whole run from step `start` of `total`, under the lock, the latest call first.
abbrev pub run_marks : Uuid → ℕ → List WorkflowStep → ℕ → List Mark
run_marks id i steps total =
    unlocked (lock_key id)
    ∷ committed
    ∷ both id (done completed total) (
        flushed completed
        ∷ loop_marks id i steps
            (committed ∷ both id start (flushed running ∷ looked id ∷ locked (lock_key id) ∷ [])))
