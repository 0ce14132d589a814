-- ===== src/Workflows.antt =====
-- services/workflow-service/app/routes: the creation of a workflow (workflows.py), of an execution
-- and the stream of its events (executions.py). The context of row-level security and failures of
-- the database are left out. `D` is the JSON of a definition, `V` that of the variables.
pub mod Dependencies
pub mod Clients
pub mod Internal
pub mod Starts
pub mod Sse
use sutram.Prelude.{
  ℕ, List, [], ◌∷◌, Option, none, some, Text, text_eq, ◌&&◌, Bool, if◌then◌else◌, Result, ok, err,
}
use sutram.Prelude.Program.{Program, pure, raise}
use sutram.Prelude.Floats.{FloatOps}
use sutram.Models.{Uuid, ExecutionContext, pending}
use sutram.Engine.Exec.{ExecutionRow}
use sutram.Executions.{HttpError, not_found, Service}

pub record Workflow (D : Type 0) : Type 0 where
  pub id : Uuid
  pub tenant_id : Uuid
  pub name : Text
  pub description : Text
  pub definition : D

pub record CreateWorkflowRequest (D : Type 0) : Type 0 where
  pub name : Text
  pub description : Text
  pub definition : D

-- The tables of workflows and executions, with the definition that each execution keeps.
pub record Tables (D V F : Type 0) : Type 0 where
  pub workflows : List (Workflow D)
  pub executions : Service V F
  pub snapshots : List (Uuid × D)

module _ {D : Type 0} where
  new_workflow : CreateWorkflowRequest D → Uuid → Uuid → Workflow D
  new_workflow body id tenant_id = record {
    id = id;
    tenant_id = tenant_id;
    name = body.name;
    description = body.description;
    definition = body.definition;
  }

  unfoldable pub find_workflow : (Workflow D → Bool) → List (Workflow D) → Option (Workflow D)
  find_workflow test [] = none
  find_workflow test (w ∷ ws) = let rest = find_workflow test ws in if test w then some w else rest

  found_workflow : Option (Workflow D) → Result HttpError (Workflow D)
  found_workflow none = err not_found
  found_workflow (some w) = ok w

module _ {V F : Type 0} (floats : FloatOps F) where
  new_execution : Uuid → Uuid → Uuid → V → ExecutionRow V F
  new_execution exec_id tenant_id workflow_id inputs = record {
    id = exec_id;
    tenant_id = tenant_id;
    workflow_id = workflow_id;
    status = pending;
    context = record {
      execution_id = exec_id;
      tenant_id = tenant_id;
      workflow_id = workflow_id;
      variables = inputs;
      current_step_index = 0;
      total_cost_usd = floats.zero;
      llm_calls = 0;
    };
    error_message = none;
    pause_reason = none;
    last_heartbeat = none;
  }

module _ {D V F : Type 0} where
  -- `id` is the id that `uuid4` draws.
  unfoldable pub create_workflow :
      CreateWorkflowRequest D
      → Uuid
      → Uuid
      → Tables D V F
      → Result HttpError (Workflow D) × Tables D V F
  unfolding new_workflow
  create_workflow body id tenant_id s = (
    ok (new_workflow body id tenant_id),
    record s { workflows = new_workflow body id tenant_id ∷ s.workflows },
  )

  unfoldable pub get_workflow : Uuid → Uuid → Tables D V F → Result HttpError (Workflow D)
  unfolding found_workflow
  get_workflow workflow_id tenant_id s =
      found_workflow
        (find_workflow (λ w. text_eq w.id workflow_id && text_eq w.tenant_id tenant_id) s.workflows)

  module _ (floats : FloatOps F) where
    -- The row is committed, then its id is sent to the workers.
    start :
        Uuid
        → Uuid
        → V
        → Option (Workflow D)
        → Tables D V F
        → Result HttpError (ExecutionRow V F) × Tables D V F
    unfolding new_execution
    start exec_id tenant_id inputs none s = (err not_found, s)
    start exec_id tenant_id inputs (some w) s = (
      ok (new_execution floats exec_id tenant_id w.id inputs),
      record s {
        executions = record {
          rows = new_execution floats exec_id tenant_id w.id inputs ∷ s.executions.rows;
          queue = exec_id ∷ s.executions.queue;
        };
        snapshots = (exec_id, w.definition) ∷ s.snapshots;
      },
    )

    -- `exec_id` is the id that `uuid4` draws. The query for the workflow has no tenant.
    unfoldable pub execute :
        Uuid → Uuid → V → Uuid → Tables D V F → Result HttpError (ExecutionRow V F) × Tables D V F
    unfolding start
    execute exec_id workflow_id inputs tenant_id s =
        start exec_id tenant_id inputs (find_workflow (λ w. text_eq w.id workflow_id) s.workflows) s
