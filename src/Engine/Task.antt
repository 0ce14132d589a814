-- ===== src/Engine/Task.antt =====
-- services/workflow-service/app/tasks/execute.py: the task that a worker runs for an execution id.
-- The rows that the queries find are arguments. A missing snapshot is replaced by the live
-- definition of the workflow.
use sutram.Prelude.{Option, none, some, if◌then◌else◌, Result}
use sutram.Prelude.Floats.{FloatOps}
use sutram.Models.{WorkflowDefinition}
use sutram.Engine.Exec.{ExecutionRow, Exn, Host, State}
use sutram.Engine.Executor.{is_terminal_status, run}

module _ {V F : Type 0} (num : FloatOps F) (host : Host V F) (max_run max_day : F) where
  -- `none` where the task returns without a run.
  run_definition :
      ExecutionRow V F → Option WorkflowDefinition → Option (Result (Exn F) (Unit {0}) × State V F)
  run_definition execution none = none
  run_definition execution (some definition) =
      some (run num host definition max_run max_day execution)

  abbrev definition_of :
      Option WorkflowDefinition → Option WorkflowDefinition → Option WorkflowDefinition
  definition_of none live = live
  definition_of (some snapshot) live = some snapshot

  pub run_task :
      Option (ExecutionRow V F)
      → Option WorkflowDefinition
      → Option WorkflowDefinition
      → Option (Result (Exn F) (Unit {0}) × State V F)
  unfolding run_definition
  run_task none snapshot live = none
  run_task (some execution) snapshot live =
      if is_terminal_status execution.status
      then none
      else run_definition execution (definition_of snapshot live)
