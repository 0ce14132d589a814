-- ===== src/Tests/Samples.antt =====
-- A workflow of three steps, its execution, and hosts that answer in different ways.
use sutram.Prelude.{ℕ, String, List, [], ◌∷◌, Bool, true, false, none, codes, refl}
use sutram.Models.{
  ExecutionStatus, pending, running, ExecutionContext, WorkflowStep, WorkflowDefinition, Uuid,
}
use sutram.Engine.Checkpoint.{Checkpoint}
use sutram.Engine.Exec.{ExecutionRow, Host}
use sutram.Engine.Executor.Quiet.{IsQuiet, IsFree}
use sutram.Tests.Servers.{nat_floats, latest_query}

abbrev pub run_id : Uuid
run_id = codes "0b1e"

abbrev pub step : String → Bool → WorkflowStep
step name wants = record { config = record { name = name; checkpoint_before = wants } }

abbrev pub three_steps : WorkflowDefinition
three_steps = record {
  steps = step "fetch" true ∷ step "rank" false ∷ step "send" true ∷ [];
  version = 1;
}

abbrev pub context : ExecutionContext ℕ ℕ
context = record {
  execution_id = run_id;
  tenant_id = codes "7a";
  workflow_id = codes "9c";
  variables = 5;
  current_step_index = 0;
  total_cost_usd = 0;
  llm_calls = 0;
}

abbrev pub row : ExecutionStatus → ExecutionRow ℕ ℕ
row status = record {
  id = run_id;
  tenant_id = codes "7a";
  workflow_id = codes "9c";
  status = status;
  context = context;
  error_message = none;
  pause_reason = none;
  last_heartbeat = none;
}

abbrev pub saved_at : ℕ → Checkpoint ℕ
saved_at i = record {
  execution_id = run_id;
  tenant_id = codes "7a";
  step_name = "rank";
  step_index = i;
  variables = 8;
  schema_version = 1;
}

-- No call raises; the lock, the status that every refresh reads and the checkpoints are chosen.
abbrev pub host : Bool → ExecutionStatus → List (Checkpoint ℕ) → Host ℕ ℕ
host free status saved = record {
  raises = λ t c. none;
  heartbeat = λ t. none;
  acquired = λ t. free;
  refreshed = λ t. row status;
  checkpoints = λ t. saved;
  query = latest_query;
  now = λ t. 100;
  elapsed_ms = λ t. 12;
  text_of = λ e. "error";
}

abbrev pub host-IsQuiet :
    (saved : List (Checkpoint ℕ)) → IsQuiet nat_floats (host true running saved) (row pending) 10 20
host-IsQuiet saved = record {
  raises = λ t c. refl;
  heartbeat = λ t. refl;
  acquired = refl;
  running = λ t. refl;
  same = λ t. refl;
}

abbrev pub nat_floats-IsFree :
    (saved : List (Checkpoint ℕ)) → IsFree nat_floats (host true running saved) (row pending) 10 20
nat_floats-IsFree saved = record { add_zero = refl; per_execution = refl; per_day = refl }
