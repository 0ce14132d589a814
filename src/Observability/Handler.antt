-- ===== src/Observability/Handler.antt =====
-- services/observability-service/app/consumer/handler.py, and _process_one of consumer/loop.py: one
-- event taken from a stream. Rows added to the session are kept only by the commit at its end, while
-- the commands of Redis take effect at once. Parsers that may fail are parameters. The counter of failures is left out.
pub mod Flags
pub mod Traces
pub mod Messages
use sutram.Prelude.{
  ℕ, String, Bool, true, false, List, [], ◌∷◌, ◌++◌, Option, none, some, Text, codes, str_int,
  if◌then◌else◌, Result, ok, err, any, text_eq,
}
use sutram.Prelude.Program.{Program, pure, raise, gets, modify, continue, ◌>>=◌, ◌>>◌}
use sutram.Observability.Spans.{ExecutionTrace, Parsers, or_text, span_from_dict}
use sutram.Prelude.Dicts.{Dict, get_item}
use sutram.Models.{Uuid, ExecutionStatus, pending, running, paused, completed, failed, cancelled}
use sutram.Events.{
  Event, ExecutionIds, StepCompleted, StepFailed, ExecutionCompleted, execution_started,
  step_completed, step_failed, execution_completed, execution_paused, memory_written,
  memory_searched,
}
use sutram.Observability.Sampler.{
  Buffer, TailSampler, buffer_span, mark_has_failure, should_keep, flush,
}

pub record AuditLog : Type 0 where
  pub tenant_id : Uuid
  pub action : Text
  pub resource_id : Uuid

-- What is recorded for Prometheus.
pub data Metric (F : Type 0) : Type 0 where
  started_metric : Uuid → Metric F
  completed_metric : Uuid → ExecutionStatus → ℕ → F → Metric F
  step_metric : Uuid → String → ℕ → Metric F
  searched_metric : ℕ → Metric F

pub record Sinks (Db F : Type 0) : Type 0 where
  pub buffer : Db
  pub traces : List (ExecutionTrace F)
  pub audits : List AuditLog
  pub metrics : List (Metric F)
  pub acked : List Text

-- `event.status.lower()`.
abbrev pub lower_status : ExecutionStatus → Text
lower_status pending = codes "pending"
lower_status running = codes "running"
lower_status paused = codes "paused"
lower_status completed = codes "completed"
lower_status failed = codes "failed"
lower_status cancelled = codes "cancelled"

pub data HandleError : Type 0 where
  -- A conversion in a span, an error of the database, an event that does not validate, and an error
  -- of Redis.
  value_error database_error validation_error redis_error : HandleError

-- What `parse_event` makes of a message: `UnknownEventType`, an exception of the validation, or an
-- event.
pub data Parsed (F : Type 0) : Type 0 where
  unknown_event_type : Parsed F
  invalid : Parsed F
  event : Event F → Parsed F

abbrev registry : List Text
registry =
    codes "execution.started"
    ∷ codes "execution.step.completed"
    ∷ codes "execution.step.failed"
    ∷ codes "execution.completed"
    ∷ codes "execution.paused"
    ∷ codes "memory.written"
    ∷ codes "memory.searched"
    ∷ []

-- `cls.model_validate(data)` is a parameter, by the event type.
abbrev validated : {F : Type 0} → Option (Event F) → Parsed F
validated none = invalid
validated (some e) = event e

unfoldable pub parse_event : {F : Type 0} → (Text → Dict → Option (Event F)) → Dict → Parsed F
parse_event validate message =
    let event_type = or_text [] (get_item (codes "event_type") message) in
    if any (λ t. text_eq t event_type) registry
    then validated (validate event_type message)
    else unknown_event_type

-- The answers of the outside for one message: the random draw, and whether the database takes the
-- flush and the commit.
pub record Answers : Type 0 where
  pub sampled : Bool
  pub flushes : Bool
  pub commits : Bool
  pub acks : Bool

module _ {Db F : Type 0} (redis : Buffer Db) (dumps : Dict → Text) (loads : Text → Dict)
    (sampler : TailSampler) (parsers : Parsers F) where
  abbrev pub Handle : Type 0
  Handle = Program HandleError (Sinks Db F) (Unit {0})

  abbrev on_buffer : (Db → Db) → Handle
  on_buffer f = modify (λ s. record s { buffer = f s.buffer })

  abbrev record_metric : Metric F → Handle
  record_metric x = modify (λ s. record s { metrics = x ∷ s.metrics })

  abbrev write_audit : Uuid → Text → Uuid → Handle
  write_audit tenant_id action resource_id = modify (λ s. record s {
    audits =
        record { tenant_id = tenant_id; action = action; resource_id = resource_id } ∷ s.audits;
  })

  abbrev add_trace : ExecutionTrace F → Handle
  add_trace trace = modify (λ s. record s { traces = trace ∷ s.traces })

  abbrev add_span : Option (ExecutionTrace F) → Handle
  add_span none = raise value_error
  add_span (some trace) = add_trace trace

  write_spans : List Dict → Uuid → Uuid → Handle
  write_spans [] tenant_id workflow_id = pure tt
  write_spans (span ∷ spans) tenant_id workflow_id = do
    add_span (span_from_dict parsers span tenant_id workflow_id)
    write_spans spans tenant_id workflow_id

  abbrev pub completion_trace : ExecutionIds → ExecutionCompleted F → ExecutionTrace F
  completion_trace ids e = record {
    execution_id = ids.execution_id;
    tenant_id = ids.tenant_id;
    workflow_id = ids.workflow_id;
    event_type = codes "execution.completed";
    step_name = none;
    step_index = none;
    duration_ms = some e.total_duration_ms;
    cost_usd = some e.total_cost_usd;
    status = some e.status;
    error_type = none;
    error_message = none;
  }

  -- `self._session.flush()`.
  session_flush : Bool → Handle
  session_flush true = pure tt
  session_flush false = raise database_error

  keep_trace : Bool → ExecutionIds → ExecutionCompleted F → Handle
  keep_trace flushes ids e = do
    spans ← gets (λ s. (flush redis dumps loads sampler ids.execution_id s.buffer).0)
    on_buffer (λ d. (flush redis dumps loads sampler ids.execution_id d).1)
    add_trace (completion_trace ids e)
    write_spans spans ids.tenant_id ids.workflow_id
    session_flush flushes

  pub on_execution_completed : Answers → ExecutionIds → ExecutionCompleted F → Handle
  on_execution_completed answers ids e = do
    buffer ← gets (λ s. s.buffer)
    if should_keep redis dumps loads sampler ids.execution_id e.total_duration_ms answers.sampled
          buffer
        then keep_trace answers.flushes ids e
        else on_buffer (λ d. (flush redis dumps loads sampler ids.execution_id d).1)
    record_metric (completed_metric ids.tenant_id e.status e.total_duration_ms e.total_cost_usd)
    write_audit ids.tenant_id (codes "execution." ++ lower_status e.status) ids.execution_id

  pub handle : Answers → Event F → Dict → Handle
  handle answers (execution_started ids) raw_data = do
    on_buffer (
        buffer_span redis dumps loads sampler ids.execution_id
          (codes "started:" ++ ids.execution_id) raw_data)
    record_metric (started_metric ids.tenant_id)
    write_audit ids.tenant_id (codes "execution.started") ids.execution_id
  handle answers (step_completed ids e) raw_data = do
    on_buffer (
        buffer_span redis dumps loads sampler ids.execution_id
          (codes "step:" ++ str_int e.step_index) raw_data)
    record_metric (step_metric ids.workflow_id e.step_name e.duration_ms)
  handle answers (step_failed ids e) raw_data = do
    on_buffer (
        buffer_span redis dumps loads sampler ids.execution_id
          (codes "step_failed:" ++ str_int e.step_index) raw_data)
    on_buffer (mark_has_failure redis dumps loads sampler ids.execution_id)
    write_audit ids.tenant_id (codes "execution.step.failed") ids.execution_id
  handle answers (execution_completed ids e) raw_data = on_execution_completed answers ids e
  handle answers (execution_paused ids e) raw_data =
      write_audit ids.tenant_id (codes "execution.paused") ids.execution_id
  handle answers (memory_written e) raw_data =
      write_audit e.tenant_id (codes "memory.written") e.memory_item_id
  handle answers (memory_searched e) raw_data = record_metric (searched_metric e.latency_ms)

  abbrev acknowledge : Text → Sinks Db F → Sinks Db F
  acknowledge msg_id s = record s { acked = msg_id ∷ s.acked }

  -- The end of the session: a commit and the acknowledgement, or a rollback of the rows.
  settle : Text → Sinks Db F → Bool → Bool → Result HandleError (Unit {0}) × Sinks Db F → Sinks Db F
  settle msg_id before true true (ok u, s) = acknowledge msg_id s
  settle msg_id before true false (ok u, s) = s
  settle msg_id before false acks (ok u, s) = record s {
    traces = before.traces;
    audits = before.audits;
  }
  settle msg_id before commits acks (err e, s) = record s {
    traces = before.traces;
    audits = before.audits;
  }

  process_parsed : Answers → Text → Parsed F → Dict → Handle
  unfolding settle
  process_parsed answers msg_id unknown_event_type message s =
      if answers.acks then (ok tt, acknowledge msg_id s) else (err redis_error, s)
  process_parsed answers msg_id invalid message s = (err validation_error, s)
  process_parsed answers msg_id (event e) message s =
      (ok tt, settle msg_id s answers.commits answers.acks (handle answers e message s))

  pub process_one : (Text → Dict → Option (Event F)) → Answers → Text → Dict → Handle
  unfolding process_parsed
  process_one validate answers msg_id message =
      process_parsed answers msg_id (parse_event validate message) message
