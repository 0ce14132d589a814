-- ===== src/Engine/Executor/Completes.antt =====
-- executor.py: a run that nothing disturbs.
use sutram.Prelude.{
  codes, ℕ, ◌+◌, List, [], ◌∷◌, ◌≡◌, refl, Option, none, some, Result, ok, length, drop, ◌∙◌, ap,
}
use sutram.Prelude.Floats.{FloatOps}
use sutram.Models.{pending, running, completed, WorkflowDefinition}
use sutram.Engine.Exec.{
  ExecutionRow, Exn, Host, State, publish, commit, flush, select_latest, lock_set, lock_release,
}
use sutram.Engine.Cost.{new_tracker}
use sutram.Engine.Checkpoint.{get_latest, Checkpoint}
use sutram.Engine.Executor.{
  ids, step_loop, finish, load_checkpoint, run_locked, with_lock, run, initial, start_after,
  fsm_transition, sse_stream, run_from, unset, execution_started, restore, lock_key,
}
use sutram.Engine.Executor.Outline.{
  outline, loop_marks, run_marks, flushed, both, committed, Mark, done, start, looked, unlocked,
  locked,
}
use sutram.Engine.Executor.Quiet.{
  IsQuiet, IsFree, call-quiet, publish_both-quiet, updated, update_status-quiet, step_loop-IsLooped,
}

-- The checkpoint that a run begins after, if there is one.
abbrev pub found : {V F : Type 0} → Host V F → ExecutionRow V F → Option (Checkpoint V)
found host row =
    get_latest host.query (host.checkpoints (lock_set (lock_key row.id) 30 ∷ [])) row.id

module _ {V F : Type 0} (num : FloatOps F) (host : Host V F) (row : ExecutionRow V F)
    (max_run max_day : F) where
  module _ (quiet : IsQuiet num host row max_run max_day)
      (free : IsFree num host row max_run max_day) where
    fsm_transition-submit :
        (s : State V F)
        → s.fsm ≡ record { status = pending }
        → fsm_transition "submit" s ≡ (ok tt, record s { fsm = record { status = running } })
    unfolding fsm_transition
    fsm_transition-submit s e = rw e

    fsm_transition-all_steps_done :
        (s : State V F)
        → s.fsm ≡ record { status = running }
        → fsm_transition "all_steps_done" s
          ≡ (ok tt, record s { fsm = record { status = completed } })
    unfolding fsm_transition
    fsm_transition-all_steps_done s e = rw e

    record IsDone (before : List Mark) (total : ℕ) (r : Result (Exn F) (Unit {0}) × State V F)
        : Type 0 where
      result : r.0 ≡ ok tt
      status : r.1.row.status ≡ completed
      marks :
          outline r.1.trace
          ≡ committed ∷ both row.id (done completed total) (flushed completed ∷ before)

    finish-IsDone :
        (total : ℕ) (s : State V F)
        → s.fsm ≡ record { status = running }
        → ids s.row ≡ ids row
        → IsDone (outline s.trace) total (finish num host total s)
    unfolding finish
    finish-IsDone total s e same = rw (fsm_transition-all_steps_done s e) (
        rw (update_status-quiet num host row max_run max_day quiet free) (
          rw (publish_both-quiet num host row max_run max_day quiet free) (
            rw (call-quiet num host row max_run max_day quiet free) (record {
              result = refl;
              status = refl;
              marks = rw (ap (λ r. r.execution_id) same);
            }))))

    started_marks : List Mark → List Mark
    started_marks before = committed ∷ both row.id start (flushed running ∷ before)

    run_from-IsDone :
        (definition : WorkflowDefinition) (k : ℕ) (s : State V F)
        → s.fsm ≡ record { status = pending }
        → s.cost_tracker ≡ new_tracker num max_run max_day
        → ids s.row ≡ ids row
        → IsDone
            (loop_marks row.id k (drop k definition.steps) (started_marks (outline s.trace)))
            (length definition.steps)
            (run_from num host definition k s)
    unfolding run_from started_marks
    run_from-IsDone definition k s e tracker same =
        let row' = (updated num host row max_run max_day quiet free) running unset unset s in
        let s1 : State V F = record s {
          fsm = record { status = running };
          row = row';
          trace =
              commit
              ∷ publish (sse_stream s.row.id) (execution_started (ids row'))
              ∷ publish (codes "executions") (execution_started (ids row'))
              ∷ flush row'
              ∷ s.trace;
        } in
        let looped =
          (step_loop-IsLooped num host row max_run max_day quiet free) k (drop k definition.steps)
            s1 tracker same in
        let fin =
          finish-IsDone (length definition.steps)
            (step_loop num host k (drop k definition.steps) s1).1 looped.machine looped.same in
        let began : outline s1.trace ≡ started_marks (outline s.trace) =
          rw (ap (λ r. r.execution_id) same) in
        rw (fsm_transition-submit s e) (
          rw (update_status-quiet num host row max_run max_day quiet free) (
            rw (publish_both-quiet num host row max_run max_day quiet free) (
              rw (call-quiet num host row max_run max_day quiet free) (
                rw looped.result (record {
                  result = fin.result;
                  status = fin.status;
                  marks =
                      fin.marks
                      ∙ ap
                          (λ b.
                            committed
                            ∷ both row.id (done completed (length definition.steps))
                                (flushed completed ∷ b))
                          (looped.marks ∙ ap (loop_marks row.id k (drop k definition.steps)) began);
                })))))

    load_checkpoint-quiet :
        (s : State V F)
        → load_checkpoint num host s ≡ (
          ok (start_after (get_latest host.query (host.checkpoints s.trace) s.row.id)),
          restore
              (get_latest host.query (host.checkpoints s.trace) s.row.id)
              (record s { trace = select_latest s.row.id ∷ s.trace }),
        )
    unfolding load_checkpoint
    load_checkpoint-quiet s = simp (call-quiet num host row max_run max_day quiet free)

    restored-IsDone :
        (definition : WorkflowDefinition) (c : Option (Checkpoint V)) (s : State V F)
        → s.fsm ≡ record { status = pending }
        → s.cost_tracker ≡ new_tracker num max_run max_day
        → ids s.row ≡ ids row
        → IsDone
            (loop_marks row.id
              (start_after c)
              (drop (start_after c) definition.steps)
              (started_marks (outline s.trace)))
            (length definition.steps)
            (run_from num host definition (start_after c) (restore c s))
    restored-IsDone definition none s = run_from-IsDone definition 0 s
    restored-IsDone definition (some c) s =
        run_from-IsDone definition (c.step_index + 1) (restore (some c) s)

    -- The state in which the lock has just been taken.
    abbrev locked_state : State V F
    locked_state = record (initial num host max_run max_day row) {
      trace = lock_set (lock_key row.id) 30 ∷ [];
    }

    run_locked-IsDone :
        (definition : WorkflowDefinition)
        → row.status ≡ pending
        → IsDone
            (loop_marks row.id
              (start_after (found host row))
              (drop (start_after (found host row)) definition.steps)
              (started_marks (looked row.id ∷ locked (lock_key row.id) ∷ [])))
            (length definition.steps)
            (run_locked num host definition locked_state)
    unfolding run_locked
    run_locked-IsDone definition p = rw (load_checkpoint-quiet locked_state) (
        restored-IsDone definition (found host row)
          (record locked_state { trace = select_latest row.id ∷ locked_state.trace })
          (ap (λ x. record { status = x }) p) refl refl)

    run-released :
        (definition : WorkflowDefinition)
        → (run_locked num host definition locked_state).0 ≡ ok tt
        → run num host definition max_run max_day row ≡ (
          ok tt,
          record ((run_locked num host definition locked_state).1) {
            trace =
                lock_release (lock_key row.id)
                ∷ (run_locked num host definition locked_state).1.trace;
          },
        )
    unfolding run with_lock
    run-released definition h = rw quiet.acquired (
        rw (call-quiet num host row max_run max_day quiet free)
          (rw h (rw quiet.heartbeat (rw (call-quiet num host row max_run max_day quiet free)))))

    -- A pending execution that nothing disturbs runs to its end: `run` returns, the row is COMPLETED,
    -- and the calls, in order, are the lock, the start on both streams, for each step from the one
    -- after the latest checkpoint (from the first where there is none) its status check, its
    -- committed checkpoint if it asks for one and then its event on both streams, and at last the
    -- completion and the release of the lock.
    pub run-completes :
        (definition : WorkflowDefinition)
        → row.status ≡ pending
        → ((run num host definition max_run max_day row).0 ≡ ok tt)
          × ((run num host definition max_run max_day row).1.row.status ≡ completed)
          × (outline (run num host definition max_run max_day row).1.trace
              ≡ run_marks row.id
                  (start_after (found host row))
                  (drop (start_after (found host row)) definition.steps)
                  (length definition.steps))
    unfolding started_marks
    run-completes definition p =
        let finished = run_locked-IsDone definition p in
        rw (run-released definition finished.result)
          (refl, finished.status, ap (λ b. unlocked (lock_key row.id) ∷ b) finished.marks)
