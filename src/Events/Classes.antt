-- ===== src/Events/Classes.antt =====
-- packages/core/sutram_core/events/execution.py and memory.py: the fields of the event classes with
-- their types and defaults, as `model_validate` reads them from a dict of texts. How pydantic reads
-- a text as a value of a type is a parameter, which answers nothing where it refuses the text.
pub mod Types
use sutram.Prelude.{
  ℕ, String, Bool, true, false, Option, none, some, Text, codes, text_eq, str_int, if◌then◌else◌,
  ◌≡◌,
}
use sutram.Prelude.Dicts.{Dict, get_item}
use sutram.Models.{Uuid, ExecutionStatus, pending, running, paused, completed, failed, cancelled}
use sutram.Events.{
  Event, ExecutionIds, StepOutputs, execution_started, step_completed, step_failed,
  execution_completed, execution_paused, memory_written, memory_searched,
}
use sutram.Events.Messages.{Formats, str_bool, status_text}

pub record Coercions (F Time : Type 0) : Type 0 where
  pub uuid : Text → Option Uuid
  pub integer : Text → Option ℕ
  pub float : Text → Option F
  pub boolean : Text → Option Bool
  pub datetime : Text → Option Time
  pub string : Text → Option String
  pub memory_type : Text → Option Text
  pub dict : Text → Option StepOutputs
  -- The defaults: a fresh id, the time, the empty dict and 0.0.
  pub uuid4 : Uuid
  pub now : Time
  pub empty : StepOutputs
  pub zero_cost : F

-- What pydantic documents: numbers, booleans and datetimes are read from their texts, and a text is
-- no dict, also where it is JSON.
pub record ReadsTexts {F Time : Type 0} (formats : Formats F Time) (c : Coercions F Time)
    : Type 0 where
  pub integer-str_int : (n : ℕ) → c.integer (str_int n) ≡ some n
  pub float-str_float : (x : F) → c.float (formats.str_float x) ≡ some x
  pub boolean-str_bool : (b : Bool) → c.boolean (str_bool b) ≡ some b
  pub datetime-str_datetime : (t : Time) → c.datetime (formats.str_datetime t) ≡ some t
  pub dict-text : (t : Text) → c.dict t ≡ none

infixl 5 ◌>>=◌
abbrev ◌>>=◌ : {A B : Type 0} → Option A → (A → Option B) → Option B
none >>= f = none
some a >>= f = f a

abbrev pub required : {A : Type 0} → (Text → Option A) → Option Text → Option A
required read none = none
required read (some t) = read t

abbrev pub optional : {A : Type 0} → A → (Text → Option A) → Option Text → Option A
optional default read none = some default
optional default read (some t) = read t

-- `ExecutionStatus` by its value.
unfoldable pub read_status : Text → Option ExecutionStatus
read_status t =
    if text_eq t (codes "PENDING")
    then some pending
    else if text_eq t (codes "RUNNING")
    then some running
    else if text_eq t (codes "PAUSED")
    then some paused
    else if text_eq t (codes "COMPLETED")
    then some completed
    else if text_eq t (codes "FAILED")
    then some failed
    else if text_eq t (codes "CANCELLED")
    then some cancelled
    else none

module _ {F Time : Type 0} (c : Coercions F Time) where
  -- The fields of `BaseEvent`: the tenant, where the others are right or left out.
  read_base : Dict → Option Uuid
  read_base d = do
    trace_id ← optional c.uuid4 c.uuid (get_item (codes "trace_id") d)
    tenant_id ← required c.uuid (get_item (codes "tenant_id") d)
    timestamp ← optional c.now c.datetime (get_item (codes "timestamp") d)
    schema_version ← optional 1 c.integer (get_item (codes "schema_version") d)
    some tenant_id

  read_ids : Dict → Option ExecutionIds
  read_ids d = do
    tenant_id ← read_base d
    execution_id ← required c.uuid (get_item (codes "execution_id") d)
    workflow_id ← required c.uuid (get_item (codes "workflow_id") d)
    some (record { tenant_id = tenant_id; execution_id = execution_id; workflow_id = workflow_id })

  read_started : Dict → Option (Event F)
  read_started d = do ids ← read_ids d; some (execution_started ids)

  read_step_completed : Dict → Option (Event F)
  read_step_completed d = do
    ids ← read_ids d
    step_name ← required c.string (get_item (codes "step_name") d)
    step_index ← required c.integer (get_item (codes "step_index") d)
    duration_ms ← required c.integer (get_item (codes "duration_ms") d)
    cost_usd ← optional c.zero_cost c.float (get_item (codes "cost_usd") d)
    outputs ← optional c.empty c.dict (get_item (codes "outputs") d)
    some (
        step_completed ids (record {
          step_name = step_name;
          step_index = step_index;
          duration_ms = duration_ms;
          cost_usd = cost_usd;
          outputs = outputs;
        }))

  read_step_failed : Dict → Option (Event F)
  read_step_failed d = do
    ids ← read_ids d
    step_name ← required c.string (get_item (codes "step_name") d)
    step_index ← required c.integer (get_item (codes "step_index") d)
    error_type ← required c.string (get_item (codes "error_type") d)
    error_message ← required c.string (get_item (codes "error_message") d)
    will_retry ← optional false c.boolean (get_item (codes "will_retry") d)
    some (
        step_failed ids (record {
          step_name = step_name;
          step_index = step_index;
          error_type = error_type;
          error_message = error_message;
          will_retry = will_retry;
        }))

  read_execution_completed : Dict → Option (Event F)
  unfolding read_status
  read_execution_completed d = do
    ids ← read_ids d
    status ← required read_status (get_item (codes "status") d)
    total_duration_ms ← required c.integer (get_item (codes "total_duration_ms") d)
    total_cost_usd ← required c.float (get_item (codes "total_cost_usd") d)
    total_steps ← required c.integer (get_item (codes "total_steps") d)
    some (
        execution_completed ids (record {
          status = status;
          total_duration_ms = total_duration_ms;
          total_cost_usd = total_cost_usd;
          total_steps = total_steps;
        }))

  read_execution_paused : Dict → Option (Event F)
  read_execution_paused d = do
    ids ← read_ids d
    pause_reason ← required c.string (get_item (codes "pause_reason") d)
    paused_at_step ← required c.string (get_item (codes "paused_at_step") d)
    some (
        execution_paused ids
          (record { pause_reason = pause_reason; paused_at_step = paused_at_step }))

  read_memory_written : Dict → Option (Event F)
  read_memory_written d = do
    tenant_id ← read_base d
    memory_item_id ← required c.uuid (get_item (codes "memory_item_id") d)
    memory_type ← required c.memory_type (get_item (codes "memory_type") d)
    some (
        memory_written (record {
          tenant_id = tenant_id;
          memory_item_id = memory_item_id;
          memory_type = memory_type;
        }))

  read_memory_searched : Dict → Option (Event F)
  read_memory_searched d = do
    tenant_id ← read_base d
    query_hash ← required some (get_item (codes "query_hash") d)
    results_count ← required c.integer (get_item (codes "results_count") d)
    latency_ms ← required c.integer (get_item (codes "latency_ms") d)
    cache_hit ← optional false c.boolean (get_item (codes "cache_hit") d)
    some (
        memory_searched (record {
          tenant_id = tenant_id;
          query_hash = query_hash;
          results_count = results_count;
          latency_ms = latency_ms;
          cache_hit = cache_hit;
        }))

  -- `cls.model_validate(data)` for the class that is registered for an event type.
  unfoldable pub model_validate : Text → Dict → Option (Event F)
  unfolding read_base read_ids read_started read_step_completed read_step_failed
      read_execution_completed read_execution_paused read_memory_written read_memory_searched
  model_validate event_type d =
      if text_eq event_type (codes "execution.started")
      then read_started d
      else if text_eq event_type (codes "execution.step.completed")
      then read_step_completed d
      else if text_eq event_type (codes "execution.step.failed")
      then read_step_failed d
      else if text_eq event_type (codes "execution.completed")
      then read_execution_completed d
      else if text_eq event_type (codes "execution.paused")
      then read_execution_paused d
      else if text_eq event_type (codes "memory.written")
      then read_memory_written d
      else if text_eq event_type (codes "memory.searched")
      then read_memory_searched d
      else none
