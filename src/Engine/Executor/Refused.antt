-- ===== src/Engine/Executor/Refused.antt =====
-- executor.py: the runs that do nothing, since another worker holds the lock or since the execution
-- is not pending.
use sutram.Prelude.{
  List, [], ◌∷◌, true, false, ◌≡◌, ◌≢◌, refl, arith, Option, none, some, ok, err, ℕ, ap,
}
use sutram.Prelude.Floats.{FloatOps}
use sutram.Models.{pending, WorkflowDefinition}
use sutram.Engine.Exec.{
  ExecutionRow, Call, lock_set, lock_release, select_latest, Host, State, call, invalid_transition,
}
use sutram.Engine.Checkpoint.{Checkpoint, get_latest}
use sutram.Engine.Executor.{
  fsm_transition, load_checkpoint, run_from, run_locked, with_lock, run, initial, lock_key,
  start_after, restore,
}

module _ {V F : Type 0} (num : FloatOps F) (host : Host V F) (row : ExecutionRow V F)
    (max_run max_day : F) where
  -- Where another worker holds the lock, `run` returns normally: it has only tried the lock, and has
  -- left the row as it was.
  pub run-busy :
      (definition : WorkflowDefinition)
      → host.acquired [] ≡ false
      → host.raises [] (lock_set (lock_key row.id) 30) ≡ none
      → run num host definition max_run max_day row ≡ (
        ok tt,
        record (initial num host max_run max_day row) {
          trace = lock_set (lock_key row.id) 30 ∷ [];
        },
      )
  unfolding run with_lock call
  run-busy definition busy works = rw busy (rw works)

  module _ (raises : (t : List (Call V F)) (c : Call V F) → host.raises t c ≡ none) where
    call-lem :
        (c : Call V F) (s : State V F) → call host c s ≡ (ok tt, record s { trace = c ∷ s.trace })
    unfolding call
    call-lem c s = rw (raises s.trace c)

    submit-refused :
        (s : State V F)
        → s.fsm.status ≢ pending
        → fsm_transition "submit" s
          ≡ (err (invalid_transition (record { status = s.fsm.status; trigger = "submit" })), s)
    unfolding fsm_transition
    submit-refused s h = ground arith

    load_checkpoint-lem :
        (s : State V F)
        → (k : ℕ) × (c : Option (Checkpoint V)) × (load_checkpoint num host s
            ≡ (ok k, restore c (record s { trace = select_latest s.row.id ∷ s.trace })))
    unfolding load_checkpoint
    load_checkpoint-lem s = (
      start_after (get_latest host.query (host.checkpoints s.trace) s.row.id),
      get_latest host.query (host.checkpoints s.trace) s.row.id,
      rw call-lem,
    )

    restored-refused :
        (definition : WorkflowDefinition) (k : ℕ) (c : Option (Checkpoint V)) (s : State V F)
        → s.fsm.status ≢ pending
        → run_from num host definition k (restore c s) ≡ (
          err (invalid_transition (record { status = s.fsm.status; trigger = "submit" })),
          restore c s,
        )
    unfolding run_from
    restored-refused definition k none s h = rw (submit-refused s h)
    restored-refused definition k (some c) s h = rw (submit-refused (restore (some c) s) h)

    row-restore :
        (c : Option (Checkpoint V)) (s : State V F)
        → ((restore c s).row ≡ s.row) × ((restore c s).trace ≡ s.trace)
    row-restore none s = (refl, refl)
    row-restore (some c) s = (refl, refl)

    -- An execution that is not pending is not run, although its lock is free and neither a call nor the
    -- heartbeat fails: `run`
    -- raises InvalidTransitionError after reading the checkpoints, the row is as it was, and the
    -- calls are the lock, the query and the release. So it goes for a stale RUNNING execution.
    pub run-not_pending :
        (definition : WorkflowDefinition)
        → ((t : List (Call V F)) → host.heartbeat t ≡ none)
        → host.acquired [] ≡ true
        → row.status ≢ pending
        → ((run num host definition max_run max_day row).0
            ≡ err (invalid_transition (record { status = row.status; trigger = "submit" })))
          × ((run num host definition max_run max_day row).1.row ≡ row)
          × ((run num host definition max_run max_day row).1.trace
              ≡ lock_release (lock_key row.id)
                ∷ select_latest row.id
                ∷ lock_set (lock_key row.id) 30
                ∷ [])
    unfolding run with_lock run_locked
    run-not_pending definition beats free h =
        let s : State V F = record (initial num host max_run max_day row) {
          trace = lock_set (lock_key row.id) 30 ∷ [];
        } in
        let (k, c, e) = load_checkpoint-lem s in
        let s2 : State V F = record s { trace = select_latest row.id ∷ s.trace } in
        rw free (
          rw call-lem (
            rw e (
              rw (restored-refused definition k c s2 h) (
                rw beats (
                  rw call-lem (
                    (
                      refl,
                      (row-restore c s2).0,
                      ap (λ t. lock_release (lock_key row.id) ∷ t) (row-restore c s2).1,
                    )))))))
