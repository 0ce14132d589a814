-- ===== src/Models.antt =====
-- packages/core/sutram_core/models: the enumerations and records that the services share. A UUID is
-- its canonical text. JSON documents that the code only stores and hands on are a type parameter.
use sutram.Prelude.{ℕ, String, List, Text, Bool}

abbrev pub Uuid : Type 0
Uuid = Text

pub data ExecutionStatus : Type 0 where
  pending running paused completed failed cancelled : ExecutionStatus

pub record StepConfig : Type 0 where
  pub name : String
  pub checkpoint_before : Bool

pub record WorkflowStep : Type 0 where
  pub config : StepConfig

pub record WorkflowDefinition : Type 0 where
  pub steps : List WorkflowStep
  pub version : ℕ

-- `V` is the JSON object of the variables, `F` the type of the floats.
pub record ExecutionContext (V F : Type 0) : Type 0 where
  pub execution_id : Uuid
  pub tenant_id : Uuid
  pub workflow_id : Uuid
  pub variables : V
  pub current_step_index : ℕ
  pub total_cost_usd : F
  pub llm_calls : ℕ
