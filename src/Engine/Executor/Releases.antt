-- ===== src/Engine/Executor/Releases.antt =====
-- executor.py with redis_lock.py: the lock is released once, last, whatever the outside world does.
use sutram.Prelude.{
  ℕ, suc, List, [], ◌∷◌, Bool, true, false, ◌≡◌, refl, none, Result, ok, err, Text, ap, drop,
  length, if◌then◌else◌, String, Option-cases, some, inl, inr,
}
use sutram.Prelude.Floats.{FloatOps}
use sutram.Models.{WorkflowStep, WorkflowDefinition}
use sutram.Engine.Exec.{
  ExecutionRow, Call, lock_set, lock_release, select_latest, insert_checkpoint, refresh, flush,
  commit, publish, Host, State, call, Exn, handle, lock_acquisition, invalid_transition, cost_limit,
  other, attempt, pure,
}
use sutram.Engine.Exec.Preserves.{
  Preserves, Preserves-modify, Preserves-read, preserves_rules, Preserves-pure, Preserves-bind,
  Preserves-if, Preserves-attempt,
}
use sutram.Engine.Executor.Works.{
  IsWork, run_step-work, on_exception-work, finish-work, load_checkpoint-work, fsm_transition-work,
  publish_both-work, update_status-work, commit-work,
}
use sutram.Engine.Executor.{
  refresh_row, step_loop, on_exception, finish, run_from, run_locked, with_lock, run, initial,
  lock_key, swallow_lock, running, after_release, stops, unset, execution_started, ids,
}

module _ {V F : Type 0} where
  abbrev pub IsInner : Call V F → Type 0
  IsInner (lock_set key ttl) = ⊥
  IsInner (lock_release key) = ⊥
  IsInner _ = Unit

  -- The calls, the latest first, are inner calls since the lock was set, which was the first call.
  abbrev pub IsHeld : Text → List (Call V F) → Type 0
  IsHeld key [] = ⊥
  IsHeld key (c ∷ []) = c ≡ lock_set key 30
  IsHeld key (c ∷ d ∷ t) = IsInner c × IsHeld key (d ∷ t)

  IsHeld-inner :
      (key : Text) (c : Call V F) (t : List (Call V F))
      → IsInner c
      → IsHeld key t
      → IsHeld key (c ∷ t)
  IsHeld-inner key c [] i h = absurd h
  IsHeld-inner key c (d ∷ t) i h = (i, h)

IsHeld-work :
    {V F : Type 0} (key : Text) (c : Call V F) (t : List (Call V F))
    → IsWork c
    → IsHeld key t
    → IsHeld key (c ∷ t)
IsHeld-work key c [] w h = absurd h
IsHeld-work key (select_latest id) (d ∷ t) w h = (tt, h)
IsHeld-work key (insert_checkpoint p) (d ∷ t) w h = (tt, h)
IsHeld-work key (flush row) (d ∷ t) w h = (tt, h)
IsHeld-work key commit (d ∷ t) w h = (tt, h)
IsHeld-work key (publish stream e) (d ∷ t) w h = (tt, h)
IsHeld-work key (lock_set k ttl) (d ∷ t) w h = absurd w
IsHeld-work key (lock_release k) (d ∷ t) w h = absurd w
IsHeld-work key (refresh id) (d ∷ t) w h = absurd w

module _ {V F : Type 0} (num : FloatOps F) (host : Host V F) where
  module _ (key : Text) where
    abbrev Held : State V F → Type 0
    Held s = IsHeld key s.trace

    abbrev keep :
        (c : Call V F) (t : List (Call V F)) → IsWork c → IsHeld key t → IsHeld key (c ∷ t)
    keep = IsHeld-work key

    refresh-Held : (id : Text) → Preserves Held (call host (refresh id))
    unfolding call
    refresh-Held id = record { after = λ s h. IsHeld-inner key (refresh id) s.trace tt h }

    refresh_row-Held : Preserves Held (refresh_row num host)
    unfolding refresh_row
    refresh_row-Held = search (preserves_rules, Preserves-modify, refresh-Held)

    round-Held :
        (i : ℕ) (step : WorkflowStep) (rest : List WorkflowStep)
        → Preserves Held (step_loop num host (suc i) rest)
        → Preserves Held (step_loop num host i (step ∷ rest))
    unfolding step_loop
    round-Held i step rest later = Preserves-bind _ _ refresh_row-Held λ _.
        Preserves-read _ _ λ status.
          Preserves-if (stops status) _ _ (Preserves-pure false)
            (Preserves-bind _ _ (run_step-work num host (IsHeld key) keep i step) (λ _. later))

    none-Held : (i : ℕ) → Preserves Held (step_loop num host i [])
    unfolding step_loop
    none-Held i = Preserves-pure true

    step_loop-Held :
        (i : ℕ) (steps : List WorkflowStep) → Preserves Held (step_loop num host i steps)
    step_loop-Held i [] = none-Held i
    step_loop-Held i (step ∷ rest) = round-Held i step rest (step_loop-Held (suc i) rest)

    loop-Held :
        (k : ℕ) (steps : List WorkflowStep)
        → Preserves Held (attempt (step_loop num host k steps) (on_exception num host))
    loop-Held k steps =
        Preserves-attempt (step_loop num host k steps) (on_exception num host)
          (step_loop-Held k steps) (on_exception-work num host (IsHeld key) keep)

    ending-Held :
        (total : ℕ) (done : Bool) → Preserves Held (if done then finish num host total else pure tt)
    ending-Held total true = finish-work num host (IsHeld key) keep total
    ending-Held total false = Preserves-pure tt

    run_from-Held :
        (definition : WorkflowDefinition) (k : ℕ) → Preserves Held (run_from num host definition k)
    unfolding run_from
    run_from-Held definition k =
        Preserves-bind _ _ (fsm_transition-work num host (IsHeld key) keep "submit") λ _.
          Preserves-bind _ _ (update_status-work num host (IsHeld key) keep running unset unset)
            λ _.
              Preserves-read {A = ExecutionRow V F} (λ s. s.row) _
                λ row.
                  Preserves-bind _ _
                    (publish_both-work num host (IsHeld key) keep (execution_started (ids row)))
                    λ _. Preserves-bind _ _ (commit-work num host (IsHeld key) keep) λ _.
                      Preserves-bind _ _ (loop-Held k (drop k definition.steps))
                        (ending-Held (length definition.steps))

    run_locked-Held :
        (definition : WorkflowDefinition) → Preserves Held (run_locked num host definition)
    unfolding run_locked
    run_locked-Held definition =
        Preserves-bind _ _ (load_checkpoint-work num host (IsHeld key) keep)
          (run_from-Held definition)

  pub state-swallow :
      (r : Result (Exn F) (Unit {0})) (s : State V F) → (handle r (swallow_lock num host) s).1 ≡ s
  state-swallow (ok u) s = refl
  state-swallow (err (lock_acquisition key)) s = refl
  state-swallow (err (invalid_transition e)) s = refl
  state-swallow (err (cost_limit e)) s = refl
  state-swallow (err (other m)) s = refl

  -- What a run under the lock comes to, from the calls `t` under it: the lock is released once, as the
  -- last call; or the heartbeat has failed, its exception is raised and the lock is not released.
  pub data IsReleased (key : Text) (t : List (Call V F))
      : Result (Exn F) (Unit {0}) × State V F → Type 0 where
    released :
        {r : Result (Exn F) (Unit {0})} {s : State V F}
        → host.heartbeat t ≡ none
        → s.trace ≡ lock_release key ∷ t
        → IsReleased key t (r, s)
    not_released :
        {s : State V F} (message : String)
        → host.heartbeat t ≡ some message
        → s.trace ≡ t
        → IsReleased key t (err (other message), s)

  -- Whatever the calls answer, and whether they raise or not, a run that has set the lock makes all
  -- its calls under the lock, and releases it exactly once and last, unless its heartbeat has
  -- failed: then it raises the heartbeat's exception and never releases the lock.
  pub run-releases :
      (row : ExecutionRow V F) (max_run max_day : F) (definition : WorkflowDefinition)
      → host.acquired [] ≡ true
      → host.raises [] (lock_set (lock_key row.id) 30) ≡ none
      → (t : List (Call V F)) × IsHeld (lock_key row.id) t
        × IsReleased (lock_key row.id) t (run num host definition max_run max_day row)
  unfolding run with_lock call
  run-releases row max_run max_day definition got works =
      let s : State V F = record (initial num host max_run max_day row) {
        trace = lock_set (lock_key row.id) 30 ∷ [];
      } in
      let (r, s') = run_locked num host definition s in
      (
        s'.trace,
        (run_locked-Held (lock_key row.id) definition).after s refl,
        rw got (
            rw works (elim (Option-cases (host.heartbeat s'.trace)) [
              | inl e ↦ rw e (
                  released e (
                    ap (λ x. x.trace)
                      (state-swallow
                        (after_release num host r (call host (lock_release (lock_key row.id)) s').0)
                        (record s' { trace = lock_release (lock_key row.id) ∷ s'.trace }))))
              | inr (message, e) ↦ rw e (not_released message e refl)
            ])),
      )
