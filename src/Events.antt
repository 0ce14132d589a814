-- ===== src/Events.antt =====
-- packages/core/sutram_core/events: the events that the services publish. The trace id, the
-- timestamp and the schema version of a base event are left out. `F` is the type of the floats.
pub mod Messages
pub mod Classes
pub mod Streams
use sutram.Prelude.{ℕ, String, Bool, Text}
use sutram.Models.{Uuid, ExecutionStatus}

pub record ExecutionIds : Type 0 where
  pub tenant_id : Uuid
  pub execution_id : Uuid
  pub workflow_id : Uuid

-- The outputs of a simulated step.
pub record StepOutputs : Type 0 where
  pub simulated : Bool
  pub step : String

pub record StepCompleted (F : Type 0) : Type 0 where
  pub step_name : String
  pub step_index : ℕ
  pub duration_ms : ℕ
  pub cost_usd : F
  pub outputs : StepOutputs

pub record StepFailed : Type 0 where
  pub step_name : String
  pub step_index : ℕ
  pub error_type : String
  pub error_message : String
  pub will_retry : Bool

pub record ExecutionCompleted (F : Type 0) : Type 0 where
  pub status : ExecutionStatus
  pub total_duration_ms : ℕ
  pub total_cost_usd : F
  pub total_steps : ℕ

pub record ExecutionPaused : Type 0 where
  pub pause_reason : String
  pub paused_at_step : String

pub record MemoryWritten : Type 0 where
  pub tenant_id : Uuid
  pub memory_item_id : Uuid
  pub memory_type : Text

pub record MemorySearched : Type 0 where
  pub tenant_id : Uuid
  pub query_hash : Text
  pub results_count : ℕ
  pub latency_ms : ℕ
  pub cache_hit : Bool

pub data Event (F : Type 0) : Type 0 where
  execution_started : ExecutionIds → Event F
  step_completed : ExecutionIds → StepCompleted F → Event F
  step_failed : ExecutionIds → StepFailed → Event F
  execution_completed : ExecutionIds → ExecutionCompleted F → Event F
  execution_paused : ExecutionIds → ExecutionPaused → Event F
  memory_written : MemoryWritten → Event F
  memory_searched : MemorySearched → Event F
