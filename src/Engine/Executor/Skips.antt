-- ===== src/Engine/Executor/Skips.antt =====
-- executor.py: which steps a resumed run leaves out.
use sutram.Prelude.{
  ℕ, suc, ◌+◌, ◌≤◌, List, [], ◌∷◌, ◌≡◌, arith, some, All, drop, length, Bool-cases, inl, inr,
}
use sutram.Prelude.Floats.{FloatOps}
use sutram.Models.{pending, running, WorkflowStep, WorkflowDefinition, Uuid}
use sutram.Engine.Exec.{ExecutionRow, Host}
use sutram.Engine.Checkpoint.{Checkpoint}
use sutram.Engine.Executor.{run, completed}
use sutram.Engine.Executor.Outline.{
  Mark, Kind, ran, outline, loop_marks, run_marks, step_marks, sent,
}
use sutram.Engine.Executor.Quiet.{IsQuiet, IsFree}
use sutram.Engine.Executor.Completes.{found, run-completes}

-- The event of a step is for an index of at least `k`.
abbrev pub KindFrom : ℕ → Kind → Type 0
KindFrom k (ran name i) = k ≤ i
KindFrom k _ = Unit

abbrev pub RanFrom : ℕ → Mark → Type 0
RanFrom k (sent stream e) = KindFrom k e
RanFrom k _ = Unit

step_marks-RanFrom :
    (id : Uuid) (k i : ℕ) (step : WorkflowStep) (before : List Mark)
    → k ≤ i
    → All (RanFrom k) before
    → All (RanFrom k) (step_marks id running i step before)
step_marks-RanFrom id k i step before h p = elim (Bool-cases step.config.checkpoint_before) [
  | inl e ↦ rw e (tt, (h, (h, (tt, (tt, (tt, p))))))
  | inr e ↦ rw e (tt, (h, (h, (tt, p))))
]

loop_marks-RanFrom :
    (id : Uuid) (k i : ℕ) (steps : List WorkflowStep) (before : List Mark)
    → k ≤ i
    → All (RanFrom k) before
    → All (RanFrom k) (loop_marks id i steps before)
loop_marks-RanFrom id k i [] before h p = p
loop_marks-RanFrom id k i (step ∷ rest) before h p =
    loop_marks-RanFrom id k (suc i) rest _ (omega arith) (step_marks-RanFrom id k i step before h p)

-- An undisturbed run that finds a checkpoint publishes no step event for the step of the checkpoint
-- or for an earlier one, and yet completes: the step before which the checkpoint was written is
-- not run again.
pub run-skips :
    {V F : Type 0} (num : FloatOps F) (host : Host V F) (row : ExecutionRow V F)
    (max_run max_day : F) (quiet : IsQuiet num host row max_run max_day)
    (free : IsFree num host row max_run max_day) (definition : WorkflowDefinition)
    (c : Checkpoint V)
    → row.status ≡ pending
    → found host row ≡ some c
    → All
        (RanFrom (suc c.step_index))
        (outline (run num host definition max_run max_day row).1.trace)
      × ((run num host definition max_run max_day row).1.row.status ≡ completed)
run-skips num host row max_run max_day quiet free definition c p e =
    let (returned, status, marks) =
      run-completes num host row max_run max_day quiet free definition p in
    let k : ℕ = c.step_index + 1 in
    let from_k : All (RanFrom (suc c.step_index))
        (run_marks row.id k (drop k definition.steps) (length definition.steps)) =
      (
        tt,
        (
          tt,
          (
            tt,
            (
              tt,
              (
                tt,
                loop_marks-RanFrom row.id (suc c.step_index) k (drop k definition.steps) _
                    (omega arith) (tt, (tt, (tt, (tt, (tt, (tt, tt)))))),
              ),
            ),
          ),
        ),
      ) in
    (rw marks (rw e from_k), status)
