-- ===== src/Engine/Executor/Stops.antt =====
-- executor.py: a pause or a cancellation that a status check reads ends the run.
use sutram.Prelude.{
  ℕ, suc, List, [], ◌∷◌, Bool, true, false, ◌&&◌, ◌≡◌, refl, Option, none, some, Result, ok, err,
  Text, if◌then◌else◌, Option-cases, inl, inr, drop, length,
}
use sutram.Prelude.Floats.{FloatOps}
use sutram.Models.{WorkflowStep, WorkflowDefinition}
use sutram.Engine.Exec.{
  ExecutionRow, Call, lock_set, lock_release, select_latest, insert_checkpoint, refresh, flush,
  commit, publish, Exn, Host, State, Exec, call, continue, ◌>>◌, ◌>>=◌, pure, handle,
}
use sutram.Engine.Exec.Preserves.{Preserves}
use sutram.Engine.Executor.Releases.{state-swallow}
use sutram.Engine.Executor.Works.{
  IsWork, run_step-work, on_exception-work, finish-work, load_checkpoint-work, fsm_transition-work,
  publish_both-work, update_status-work, commit-work,
}
use sutram.Engine.Executor.{
  stops, refresh_row, step_loop, run_step, on_exception, finish, run_from, run_locked, with_lock,
  run, initial, lock_key, running, unset, execution_started, ids, after_release,
}

abbrev is_none : {A : Type 0} → Option A → Bool
is_none none = true
is_none (some a) = false

module _ {V F : Type 0} (host : Host V F) where
  -- The latest call was a status check that was answered by PAUSED or CANCELLED.
  abbrev pub is_halted : List (Call V F) → Bool
  is_halted (refresh id ∷ t) =
      is_none (host.raises t (refresh id)) && stops (host.refreshed t).status
  is_halted _ = false

  -- After such an answer no call is made but the release of the lock.
  abbrev pub Obeys : Text → List (Call V F) → Type 0
  Obeys key [] = Unit
  Obeys key (c ∷ t) = (is_halted t ≡ true → c ≡ lock_release key) × Obeys key t

  -- Obeyed so far, and not halted now.
  abbrev Runs : Text → List (Call V F) → Type 0
  Runs key t = Obeys key t × (is_halted t ≡ false)

  Runs-inner :
      (key : Text) (c : Call V F) (t : List (Call V F))
      → is_halted (c ∷ t) ≡ false
      → Runs key t
      → Runs key (c ∷ t)
  Runs-inner key c t idle r = ((λ h. cc (r.1, h), r.0), idle)

  Runs-work :
      (key : Text) (c : Call V F) (t : List (Call V F)) → IsWork c → Runs key t → Runs key (c ∷ t)
  Runs-work key (lock_set k ttl) t w r = absurd w
  Runs-work key (lock_release k) t w r = absurd w
  Runs-work key (refresh id) t w r = absurd w
  Runs-work key (select_latest id) t w r = Runs-inner key (select_latest id) t refl r
  Runs-work key (insert_checkpoint c) t w r = Runs-inner key (insert_checkpoint c) t refl r
  Runs-work key (flush row) t w r = Runs-inner key (flush row) t refl r
  Runs-work key commit t w r = Runs-inner key commit t refl r
  Runs-work key (publish stream e) t w r = Runs-inner key (publish stream e) t refl r

  -- What holds when a loop has ended: it may have been halted where it returned from inside.
  abbrev After : Text → Result (Exn F) Bool → List (Call V F) → Type 0
  After key (ok false) t = Obeys key t
  After key (ok true) t = Runs key t
  After key (err e) t = Runs key t

module _ {V F : Type 0} (num : FloatOps F) (host : Host V F) (key : Text) where
  abbrev keep :
      (c : Call V F) (t : List (Call V F)) → IsWork c → Runs host key t → Runs host key (c ∷ t)
  keep = Runs-work host key

  abbrev EndsWell : Exec V F Bool → Type 0
  EndsWell m = (s : State V F) → Runs host key s.trace → After host key (m s).0 (m s).1.trace

  continue-EndsWell :
      (r : Result (Exn F) (Unit {0})) (f : Exec V F Bool) (s : State V F)
      → EndsWell f
      → Runs host key s.trace
      → After host key (continue r (λ _. f) s).0 (continue r (λ _. f) s).1.trace
  continue-EndsWell (ok u) f s ends r = ends s r
  continue-EndsWell (err e) f s ends r = r

  -- The body of the loop after a status check.
  checked : Bool → ℕ → WorkflowStep → List WorkflowStep → Exec V F Bool
  checked stop i step rest =
      if stop then pure false else (run_step num host i step >> step_loop num host (suc i) rest)

  checked-After :
      (stop : Bool) (i : ℕ) (step : WorkflowStep) (rest : List WorkflowStep) (s : State V F)
      → EndsWell (step_loop num host (suc i) rest)
      → Obeys host key s.trace
      → is_halted host s.trace ≡ stop
      → After host key (checked stop i step rest s).0 (checked stop i step rest s).1.trace
  unfolding checked
  checked-After true i step rest s ends o h = o
  checked-After false i step rest s ends o h =
      continue-EndsWell (run_step num host i step s).0 (step_loop num host (suc i) rest)
        (run_step num host i step s).1 ends
        ((run_step-work num host (Runs host key) keep i step).after s (o, h))

  round-EndsWell :
      (i : ℕ) (step : WorkflowStep) (rest : List WorkflowStep)
      → EndsWell (step_loop num host (suc i) rest)
      → EndsWell (step_loop num host i (step ∷ rest))
  unfolding step_loop refresh_row call checked
  round-EndsWell i step rest ends s r =
      elim (Option-cases (host.raises s.trace (refresh s.row.id))) [
        | inl works ↦ rw works (
            checked-After (stops (host.refreshed s.trace).status) i step rest
              (record s { row = host.refreshed s.trace; trace = refresh s.row.id ∷ s.trace }) ends
              ((λ h. cc (r.1, h)), r.0) (rw works))
        | inr (m, raised) ↦ rw raised (((λ h. cc (r.1, h)), r.0), rw raised)
      ]

  none-EndsWell : (i : ℕ) → EndsWell (step_loop num host i [])
  unfolding step_loop
  none-EndsWell i s r = r

  step_loop-EndsWell : (i : ℕ) (steps : List WorkflowStep) → EndsWell (step_loop num host i steps)
  step_loop-EndsWell i [] = none-EndsWell i
  step_loop-EndsWell i (step ∷ rest) = round-EndsWell i step rest (step_loop-EndsWell (suc i) rest)

  Runs-After :
      (r : Result (Exn F) Bool) (t : List (Call V F)) → Runs host key t → After host key r t
  Runs-After (ok true) t r = r
  Runs-After (ok false) t r = r.0
  Runs-After (err e) t r = r

  handle-After :
      (r : Result (Exn F) Bool) (s : State V F)
      → After host key r s.trace
      → After host key
          (handle r (on_exception num host) s).0
          (handle r (on_exception num host) s).1.trace
  handle-After (ok true) s a = a
  handle-After (ok false) s a = a
  handle-After (err e) s a =
      Runs-After (on_exception num host e s).0 (on_exception num host e s).1.trace
        ((on_exception-work num host (Runs host key) keep e).after s a)

  ending-Obeys :
      (total : ℕ) (r : Result (Exn F) Bool) (s : State V F)
      → After host key r s.trace
      → Obeys host key
          (continue r (λ done. if done then finish num host total else pure tt) s).1.trace
  ending-Obeys total (ok true) s a = ((finish-work num host (Runs host key) keep total).after s a).0
  ending-Obeys total (ok false) s a = a
  ending-Obeys total (err e) s a = a.0

  abbrev EndsObeying : {A : Type 0} → Exec V F A → Type 0
  EndsObeying m = (s : State V F) → Runs host key s.trace → Obeys host key (m s).1.trace

  continue-Obeys :
      {A B : Type 0} (r : Result (Exn F) A) (f : A → Exec V F B) (s : State V F)
      → ((a : A) → EndsObeying (f a))
      → Runs host key s.trace
      → Obeys host key (continue r f s).1.trace
  continue-Obeys (ok a) f s ends r = ends a s r
  continue-Obeys (err e) f s ends r = r.0

  bind-Obeys :
      {A B : Type 0} (m : Exec V F A) (f : A → Exec V F B)
      → Preserves (λ s. Runs host key s.trace) m
      → ((a : A) → EndsObeying (f a))
      → EndsObeying (m >>= f)
  bind-Obeys m f first ends s r = continue-Obeys (m s).0 f (m s).1 ends (first.after s r)

  run_from-Obeys :
      (definition : WorkflowDefinition) (k : ℕ) → EndsObeying (run_from num host definition k)
  unfolding run_from
  run_from-Obeys definition k =
      bind-Obeys _ _ (fsm_transition-work num host (Runs host key) keep "submit") λ _.
        bind-Obeys _ _ (update_status-work num host (Runs host key) keep running unset unset)
          λ _ s r.
            bind-Obeys _ _
              (publish_both-work num host (Runs host key) keep (execution_started (ids s.row)))
              (λ _. bind-Obeys _ _ (commit-work num host (Runs host key) keep) λ _ s2 r2.
                let (result, s3) = step_loop num host k (drop k definition.steps) s2 in
                let (result4, s4) = handle result (on_exception num host) s3 in
                ending-Obeys (length definition.steps) result4 s4
                  (handle-After result s3 (step_loop-EndsWell k (drop k definition.steps) s2 r2)))
              s r

  run_locked-Obeys :
      (definition : WorkflowDefinition) → EndsObeying (run_locked num host definition)
  unfolding run_locked
  run_locked-Obeys definition =
      bind-Obeys _ _ (load_checkpoint-work num host (Runs host key) keep)
        (run_from-Obeys definition)

-- Whatever the calls answer: once a status check has read PAUSED or CANCELLED, the run makes no
-- further call but the release of its lock. No step is begun, and nothing is written or published.
pub run-stops :
    {V F : Type 0} (num : FloatOps F) (host : Host V F) (row : ExecutionRow V F)
    (max_run max_day : F) (definition : WorkflowDefinition)
    → host.acquired [] ≡ true
    → host.raises [] (lock_set (lock_key row.id) 30) ≡ none
    → Obeys host (lock_key row.id) (run num host definition max_run max_day row).1.trace
unfolding run with_lock call
run-stops num host row max_run max_day definition got works =
    let s : State _ _ = record (initial num host max_run max_day row) {
      trace = lock_set (lock_key row.id) 30 ∷ [];
    } in
    let (r, s') = run_locked num host definition s in
    let obeys =
      run_locked-Obeys num host (lock_key row.id) definition s (((λ h. cc h), tt), refl) in
    rw got (
      rw works (elim (Option-cases (host.heartbeat s'.trace)) [
        | inl e ↦ rw e (
            rw
              (state-swallow num host
                (after_release num host r (call host (lock_release (lock_key row.id)) s').0)
                (record s' { trace = lock_release (lock_key row.id) ∷ s'.trace }))
              ((λ h. refl), obeys))
        | inr (message, e) ↦ rw e obeys
      ]))
