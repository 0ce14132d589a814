-- ===== src/Events/Messages.antt =====
-- packages/core/sutram_core/events/base.py and the publisher of streams/redis_streams.py: an event
-- as the flat dict of a Redis stream. `F` is the type of the floats, `Time` that of the timestamps.
use sutram.Prelude.{ℕ, List, [], ◌∷◌, ◌++◌, map, Bool, true, false, Text, codes, str_int}
use sutram.Prelude.Dicts.{Dict}
use sutram.Models.{Uuid, ExecutionStatus, pending, running, paused, completed, failed, cancelled}
use sutram.Events.{
  Event, ExecutionIds, StepOutputs, execution_started, step_completed, step_failed,
  execution_completed, execution_paused, memory_written, memory_searched,
}

-- The fields of `BaseEvent` that `Event` leaves out.
pub record Envelope (Time : Type 0) : Type 0 where
  pub trace_id : Uuid
  pub timestamp : Time
  pub schema_version : ℕ

-- The value of a field in `model_dump`.
pub data Value (F Time : Type 0) : Type 0 where
  text : Text → Value F Time
  integer : ℕ → Value F Time
  float : F → Value F Time
  boolean : Bool → Value F Time
  datetime : Time → Value F Time
  dict : StepOutputs → Value F Time

-- `str` of a float and of a datetime, and `json.dumps`.
pub record Formats (F Time : Type 0) : Type 0 where
  pub str_float : F → Text
  pub str_datetime : Time → Text
  pub dumps : StepOutputs → Text

abbrev pub str_bool : Bool → Text
str_bool true = codes "True"
str_bool false = codes "False"

-- The value of a member of `ExecutionStatus`, which is its `str`.
abbrev pub status_text : ExecutionStatus → Text
status_text pending = codes "PENDING"
status_text running = codes "RUNNING"
status_text paused = codes "PAUSED"
status_text completed = codes "COMPLETED"
status_text failed = codes "FAILED"
status_text cancelled = codes "CANCELLED"

abbrev pub event_type : {F : Type 0} → Event F → Text
event_type (execution_started ids) = codes "execution.started"
event_type (step_completed ids e) = codes "execution.step.completed"
event_type (step_failed ids e) = codes "execution.step.failed"
event_type (execution_completed ids e) = codes "execution.completed"
event_type (execution_paused ids e) = codes "execution.paused"
event_type (memory_written e) = codes "memory.written"
event_type (memory_searched e) = codes "memory.searched"

abbrev pub event_tenant : {F : Type 0} → Event F → Uuid
event_tenant (execution_started ids) = ids.tenant_id
event_tenant (step_completed ids e) = ids.tenant_id
event_tenant (step_failed ids e) = ids.tenant_id
event_tenant (execution_completed ids e) = ids.tenant_id
event_tenant (execution_paused ids e) = ids.tenant_id
event_tenant (memory_written e) = e.tenant_id
event_tenant (memory_searched e) = e.tenant_id

module _ {F Time : Type 0} where
  abbrev pub id_fields : ExecutionIds → List (Text × Value F Time)
  id_fields ids =
      (codes "execution_id", text ids.execution_id)
      ∷ (codes "workflow_id", text ids.workflow_id)
      ∷ []

  -- The fields that an event's class adds to those of `BaseEvent`, in their order.
  abbrev pub own_fields : Event F → List (Text × Value F Time)
  own_fields (execution_started ids) = id_fields ids
  own_fields (step_completed ids e) =
      id_fields ids
      ++ ((codes "step_name", text (codes e.step_name))
          ∷ (codes "step_index", integer e.step_index)
          ∷ (codes "duration_ms", integer e.duration_ms)
          ∷ (codes "cost_usd", float e.cost_usd)
          ∷ (codes "outputs", dict e.outputs)
          ∷ [])
  own_fields (step_failed ids e) =
      id_fields ids
      ++ ((codes "step_name", text (codes e.step_name))
          ∷ (codes "step_index", integer e.step_index)
          ∷ (codes "error_type", text (codes e.error_type))
          ∷ (codes "error_message", text (codes e.error_message))
          ∷ (codes "will_retry", boolean e.will_retry)
          ∷ [])
  own_fields (execution_completed ids e) =
      id_fields ids
      ++ ((codes "status", text (status_text e.status))
          ∷ (codes "total_duration_ms", integer e.total_duration_ms)
          ∷ (codes "total_cost_usd", float e.total_cost_usd)
          ∷ (codes "total_steps", integer e.total_steps)
          ∷ [])
  own_fields (execution_paused ids e) =
      id_fields ids
      ++ ((codes "pause_reason", text (codes e.pause_reason))
          ∷ (codes "paused_at_step", text (codes e.paused_at_step))
          ∷ [])
  own_fields (memory_written e) =
      (codes "memory_item_id", text e.memory_item_id)
      ∷ (codes "memory_type", text e.memory_type)
      ∷ []
  own_fields (memory_searched e) =
      (codes "query_hash", text e.query_hash)
      ∷ (codes "results_count", integer e.results_count)
      ∷ (codes "latency_ms", integer e.latency_ms)
      ∷ (codes "cache_hit", boolean e.cache_hit)
      ∷ []

  unfoldable pub model_dump : Envelope Time → Event F → List (Text × Value F Time)
  model_dump base e =
      (codes "event_type", text (event_type e))
      ∷ (codes "trace_id", text base.trace_id)
      ∷ (codes "tenant_id", text (event_tenant e))
      ∷ (codes "timestamp", datetime base.timestamp)
      ∷ (codes "schema_version", integer base.schema_version)
      ∷ own_fields e

  abbrev pub flat : Formats F Time → Value F Time → Text
  flat formats (text t) = t
  flat formats (integer n) = str_int n
  flat formats (float x) = formats.str_float x
  flat formats (boolean b) = str_bool b
  flat formats (datetime t) = formats.str_datetime t
  flat formats (dict outputs) = formats.dumps outputs

  unfoldable pub to_stream_dict : Formats F Time → Envelope Time → Event F → Dict
  unfolding model_dump
  to_stream_dict formats base e = map (λ (k, v). (k, flat formats v)) (model_dump base e)
