-- ===== src/Engine/Executor/Quiet.antt =====
-- executor.py: the calls of a run that nothing disturbs, up to the end of its loop.
use sutram.Prelude.{
  codes, ℕ, suc, ◌+◌, List, [], ◌∷◌, Bool, true, false, ◌≡◌, refl, arith, none, some, Result, ok,
  Bool-cases, inl, inr, if◌then◌else◌, ◌∙◌, ap,
}
use sutram.Prelude.Floats.{FloatOps}
use sutram.Models.{ExecutionStatus, running, WorkflowStep}
use sutram.Events.{Event}
use sutram.Engine.Exec.{
  ExecutionRow, Call, Exn, Host, State, call, publish, commit, insert_checkpoint, refresh, flush,
}
use sutram.Engine.Cost.{add, new_tracker}
use sutram.Engine.Checkpoint.{write}
use sutram.Engine.Executor.{
  stops, ids, publish_both, update_status, run_step, refresh_row, step_loop, sse_stream,
  write_checkpoint, add_step_cost, Column, step_completed, column,
}
use sutram.Engine.Executor.Outline.{
  outline, step_marks, loop_marks, flushed, both, ran, committed, saved,
}

module _ {V F : Type 0} (num : FloatOps F) (host : Host V F) (row : ExecutionRow V F)
    (max_run max_day : F) where
  -- No call raises, the lock is free, and every refresh reads a running row of this execution.
  pub record IsQuiet : Type 0 where
    pub raises : (t : List (Call V F)) (c : Call V F) → host.raises t c ≡ none
    pub heartbeat : (t : List (Call V F)) → host.heartbeat t ≡ none
    pub acquired : host.acquired [] ≡ true
    pub running : (t : List (Call V F)) → (host.refreshed t).status ≡ running
    pub same : (t : List (Call V F)) → ids (host.refreshed t) ≡ ids row

  -- The cost of a simulated step adds nothing and is within both limits.
  pub record IsFree : Type 0 where
    pub add_zero : num.add num.zero num.zero ≡ num.zero
    pub per_execution : num.gt num.zero max_run ≡ false
    pub per_day : num.gt num.zero max_day ≡ false

  module _ (quiet : IsQuiet) (free : IsFree) where
    pub call-quiet :
        (c : Call V F) (s : State V F) → call host c s ≡ (ok tt, record s { trace = c ∷ s.trace })
    unfolding call
    call-quiet c s = rw (quiet.raises s.trace c)

    pub publish_both-quiet :
        (e : Event F) (s : State V F)
        → publish_both num host e s ≡ (
          ok tt,
          record s {
            trace = publish (sse_stream s.row.id) e ∷ publish (codes "executions") e ∷ s.trace;
          },
        )
    unfolding publish_both
    publish_both-quiet e s = simp call-quiet

    abbrev saving : Bool → ℕ → WorkflowStep → State V F → List (Call V F)
    saving true i step s =
        commit
        ∷ insert_checkpoint (write s.row.id s.row.tenant_id step.config.name i s.ctx.variables)
        ∷ s.trace
    saving false i step s = s.trace

    write_checkpoint-quiet :
        (i : ℕ) (step : WorkflowStep) (s : State V F)
        → write_checkpoint num host i step s
          ≡ (ok tt, record s { trace = saving step.config.checkpoint_before i step s })
    unfolding write_checkpoint
    write_checkpoint-quiet i step s = elim (Bool-cases step.config.checkpoint_before) [
      | inl e ↦ rw e (simp call-quiet)
      | inr e ↦ rw e
    ]

    add_step_cost-free :
        (s : State V F)
        → s.cost_tracker ≡ new_tracker num max_run max_day
        → add_step_cost num host s ≡ (ok tt, s)
    unfolding add_step_cost add new_tracker
    add_step_cost-free s e = rw (e, free.add_zero, free.per_execution, free.per_day)

    abbrev pub updated : ExecutionStatus → Column → Column → State V F → ExecutionRow V F
    updated new_status e p s = record (s.row) {
      status = new_status;
      last_heartbeat = some (host.now s.trace);
      error_message = column e s.row.error_message;
      pause_reason = column p s.row.pause_reason;
    }

    pub update_status-quiet :
        (new_status : ExecutionStatus) (e p : Column) (s : State V F)
        → update_status num host new_status e p s ≡ (
          ok tt,
          record s {
            row = updated new_status e p s;
            trace = flush (updated new_status e p s) ∷ s.trace;
          },
        )
    unfolding update_status
    update_status-quiet new_status e p s = simp call-quiet

    refresh_row-quiet :
        (s : State V F)
        → refresh_row num host s
          ≡ (ok tt, record s { row = host.refreshed s.trace; trace = refresh s.row.id ∷ s.trace })
    unfolding refresh_row
    refresh_row-quiet s = simp call-quiet

    abbrev stepped : ℕ → WorkflowStep → State V F → State V F
    stepped i step s =
        let ctx = record (s.ctx) {
          current_step_index = i + 1;
          total_cost_usd = num.add s.ctx.total_cost_usd num.zero;
        } in
        let before =
          saving step.config.checkpoint_before i step
            (record s { current_step_name = step.config.name }) in
        let row = record (s.row) { context = ctx } in
        let e = step_completed (ids row) (record {
          step_name = step.config.name;
          step_index = i;
          duration_ms = host.elapsed_ms before;
          cost_usd = num.zero;
          outputs = record { simulated = true; step = step.config.name };
        }) in
        record s {
          current_step_name = step.config.name;
          ctx = ctx;
          row = row;
          trace =
              flush row ∷ publish (sse_stream row.id) e ∷ publish (codes "executions") e ∷ before;
        }

    run_step-quiet :
        (i : ℕ) (step : WorkflowStep) (s : State V F)
        → s.cost_tracker ≡ new_tracker num max_run max_day
        → run_step num host i step s ≡ (ok tt, stepped i step s)
    unfolding run_step
    run_step-quiet i step s e =
        let s1 : State V F = record s { current_step_name = step.config.name } in
        let s2 : State V F = record s1 { trace = saving step.config.checkpoint_before i step s1 } in
        rw (write_checkpoint-quiet i step s1)
          (rw (add_step_cost-free s2 e) (rw publish_both-quiet (rw call-quiet)))

    outline-stepped :
        (i : ℕ) (step : WorkflowStep) (s : State V F)
        → outline (stepped i step s).trace
          ≡ flushed s.row.status
            ∷ both s.row.id (ran step.config.name i) (
                if step.config.checkpoint_before
                then committed ∷ saved step.config.name i ∷ outline s.trace
                else outline s.trace)
    unfolding write
    outline-stepped i step s = ground arith

    -- The state in which the body of a step begins.
    abbrev entered : State V F → State V F
    entered s = record s { row = host.refreshed s.trace; trace = refresh s.row.id ∷ s.trace }

    goes_on : (t : List (Call V F)) → stops (host.refreshed t).status ≡ false
    goes_on t = rw (quiet.running t)

    step_loop-one :
        (i : ℕ) (step : WorkflowStep) (rest : List WorkflowStep) (s : State V F)
        → s.cost_tracker ≡ new_tracker num max_run max_day
        → step_loop num host i (step ∷ rest) s
          ≡ step_loop num host (suc i) rest (stepped i step (entered s))
    unfolding step_loop
    step_loop-one i step rest s e =
        rw (refresh_row-quiet s) (rw (goes_on s.trace) (rw (run_step-quiet i step (entered s) e)))

    -- What a loop that runs to its end leaves.
    pub record IsLooped (i : ℕ) (steps : List WorkflowStep) (s : State V F)
        (r : Result (Exn F) Bool × State V F) : Type 0 where
      pub result : r.0 ≡ ok true
      pub marks : outline r.1.trace ≡ loop_marks row.id i steps (outline s.trace)
      pub same : ids r.1.row ≡ ids row
      pub machine : r.1.fsm ≡ s.fsm
      pub tracker : r.1.cost_tracker ≡ s.cost_tracker

    entered-marks :
        (i : ℕ) (step : WorkflowStep) (s : State V F)
        → ids s.row ≡ ids row
        → outline (stepped i step (entered s)).trace
          ≡ step_marks row.id running i step (outline s.trace)
    entered-marks i step s same = ground (
      arith,
      outline-stepped i step (entered s),
      quiet.running s.trace,
      ap (λ r. r.execution_id) (quiet.same s.trace),
      ap (λ r. r.execution_id) same,
    )

    pub step_loop-IsLooped :
        (i : ℕ) (steps : List WorkflowStep) (s : State V F)
        → s.cost_tracker ≡ new_tracker num max_run max_day
        → ids s.row ≡ ids row
        → IsLooped i steps s (step_loop num host i steps s)
    step_loop-IsLooped i [] s e same =
        unfold step_loop in
        record { result = refl; marks = refl; same = same; machine = refl; tracker = refl }
    step_loop-IsLooped i (step ∷ rest) s e same =
        let next = stepped i step (entered s) in
        let later = step_loop-IsLooped (suc i) rest next e (quiet.same s.trace) in
        rw (step_loop-one i step rest s e) (record {
          result = later.result;
          marks = later.marks ∙ ap (loop_marks row.id (suc i) rest) (entered-marks i step s same);
          same = later.same;
          machine = later.machine;
          tracker = later.tracker;
        })
