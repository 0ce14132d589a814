-- ===== src/Observability/Handler/Messages.antt =====
-- What the consumer makes of the messages that the services publish: to_stream_dict of
-- packages/core/sutram_core/events/base.py, then parse_event of
-- services/observability-service/app/consumer/dispatcher.py.
use sutram.Prelude.{
  String, Option, none, some, codes, ◌≡◌, refl, if◌then◌else◌, Bool, true, false, [], Text, err, ok,
}
use sutram.Prelude.Dicts.{Dict, get_item}
use sutram.Observability.Spans.{or_text, Parsers}
use sutram.Observability.Sampler.{Buffer, TailSampler}
use sutram.Events.Classes.Types.{IsOf, model_validate-IsOf}
use sutram.Models.{Uuid, ExecutionStatus, pending, running, paused, completed, failed, cancelled}
use sutram.Events.{
  Event, ExecutionIds, execution_started, step_completed, step_failed, execution_completed,
  execution_paused, memory_written, memory_searched,
}
use sutram.Events.Messages.{Envelope, Formats, to_stream_dict, status_text}
use sutram.Events.Classes.{Coercions, ReadsTexts, read_status, model_validate}
use sutram.Observability.Handler.{
  validation_error, Parsed, invalid, event, parse_event, validated, unknown_event_type, settle,
  process_parsed, process_one, Answers, Sinks, handle,
}

read_status-status_text : (s : ExecutionStatus) → read_status (status_text s) ≡ some s
unfolding read_status
read_status-status_text pending = refl
read_status-status_text running = refl
read_status-status_text paused = refl
read_status-status_text completed = refl
read_status-status_text failed = refl
read_status-status_text cancelled = refl

-- What the consumer reads of the message of an event: the event, but for a completed step.
abbrev pub received : {F : Type 0} → Event F → Parsed F
received (step_completed ids e) = invalid
received e = event e

module _ {F Time : Type 0} (formats : Formats F Time) (c : Coercions F Time) where
  -- The ids are UUIDs, and the strings and the memory type are read as themselves.
  abbrev IsId : Uuid → Type 0
  IsId id = c.uuid id ≡ some id

  abbrev IsString : String → Type 0
  IsString s = c.string (codes s) ≡ some s

  abbrev AreIds : ExecutionIds → Type 0
  AreIds ids = IsId ids.tenant_id × IsId ids.execution_id × IsId ids.workflow_id

  abbrev pub IsTyped : Event F → Type 0
  IsTyped (execution_started ids) = AreIds ids
  IsTyped (step_completed ids e) = AreIds ids × IsString e.step_name
  IsTyped (step_failed ids e) =
      AreIds ids × IsString e.step_name × IsString e.error_type × IsString e.error_message
  IsTyped (execution_completed ids e) = AreIds ids
  IsTyped (execution_paused ids e) =
      AreIds ids × IsString e.pause_reason × IsString e.paused_at_step
  IsTyped (memory_written e) =
      IsId e.tenant_id × IsId e.memory_item_id × (c.memory_type e.memory_type ≡ some e.memory_type)
  IsTyped (memory_searched e) = IsId e.tenant_id

  -- Where pydantic reads texts as it documents, an event whose ids and strings have their declared
  -- types, of any class but one, is published as a message that the consumer reads as the same event.
  -- The exception is a completed step: its outputs are sent as JSON text, and its message never
  -- validates.
  pub parse_event-to_stream_dict :
      ReadsTexts formats c
      → (base : Envelope Time) (e : Event F) → c.uuid base.trace_id ≡ some base.trace_id
      → IsTyped e
      → parse_event (model_validate c) (to_stream_dict formats base e) ≡ received e
  unfolding parse_event model_validate to_stream_dict
  parse_event-to_stream_dict r base (execution_started ids) t h = rw t (
      rw (h.0) (
        rw (r.datetime-str_datetime base.timestamp)
          (rw (r.integer-str_int base.schema_version) (rw (h.1) (rw (h.2) refl)))))
  parse_event-to_stream_dict r base (step_completed ids e) t h = simp (
    t, r.datetime-str_datetime, r.integer-str_int, r.float-str_float, r.dict-text, h.0.0, h.0.1,
    h.0.2, h.1,
  )
  parse_event-to_stream_dict r base (step_failed ids e) t h = simp (
    t, r.datetime-str_datetime, r.integer-str_int, r.boolean-str_bool, h.0.0, h.0.1, h.0.2, h.1,
    h.2, h.3,
  )
  parse_event-to_stream_dict r base (execution_completed ids e) t h = simp (
    t, r.datetime-str_datetime, r.integer-str_int, r.float-str_float, h.0, h.1, h.2,
    read_status-status_text,
  )
  parse_event-to_stream_dict r base (execution_paused ids e) t h =
      simp (t, r.datetime-str_datetime, r.integer-str_int, h.0.0, h.0.1, h.0.2, h.1, h.2)
  parse_event-to_stream_dict r base (memory_written e) t h =
      simp (t, r.datetime-str_datetime, r.integer-str_int, h.0, h.1, h.2)
  parse_event-to_stream_dict r base (memory_searched e) t h =
      simp (t, r.datetime-str_datetime, r.integer-str_int, r.boolean-str_bool, h)

module _ {F Time : Type 0} (c : Coercions F Time) where
  parsed_inv :
      (b : Bool) (o : Option (Event F)) (e : Event F)
      → (if b then validated o else unknown_event_type) ≡ event e
      → o ≡ some e
  parsed_inv true none e h = cc h
  parsed_inv true (some e') e h = cc h
  parsed_inv false o e h = cc h

  -- An event that the consumer has read is of the class that the message's event_type names, and its
  -- tenant is the one that the message gives, so that its metrics and audit records are booked under
  -- that tenant.
  pub parse_event-IsOf :
      (d : Dict) (e : Event F)
      → parse_event (model_validate c) d ≡ event e
      → IsOf c d (or_text [] (get_item (codes "event_type") d)) e
  unfolding parse_event
  parse_event-IsOf d e h = model_validate-IsOf c d _ e (parsed_inv _ _ e h)

unfoldable pub is_step : {F : Type 0} → Event F → Bool
is_step (step_completed ids e) = true
is_step _ = false

module _ {Db F : Type 0} (redis : Buffer Db) (dumps : Dict → Text) (loads : Text → Dict)
    (sampler : TailSampler) (parsers : Parsers F) where
  -- An event through the handler and the end of its session.
  pub deliver_one : Answers → Text → Event F → Dict → Sinks Db F → Sinks Db F
  unfolding settle
  deliver_one answers msg_id e raw s =
      settle redis dumps loads sampler parsers msg_id s answers.commits answers.acks
        (handle redis dumps loads sampler parsers answers e raw s)

  process_parsed-received :
      (answers : Answers) (msg_id : Text) (e : Event F) (raw : Dict) (s : Sinks Db F)
      → process_parsed redis dumps loads sampler parsers answers msg_id (received e) raw s ≡ (
          if is_step e
          then (err validation_error, s)
          else (ok tt, deliver_one answers msg_id e raw s))
  unfolding process_parsed is_step deliver_one
  process_parsed-received answers msg_id (execution_started ids) raw s = refl
  process_parsed-received answers msg_id (step_completed ids e) raw s = refl
  process_parsed-received answers msg_id (step_failed ids e) raw s = refl
  process_parsed-received answers msg_id (execution_completed ids e) raw s = refl
  process_parsed-received answers msg_id (execution_paused ids e) raw s = refl
  process_parsed-received answers msg_id (memory_written e) raw s = refl
  process_parsed-received answers msg_id (memory_searched e) raw s = refl

  pub process_one-published :
      {Time : Type 0} (formats : Formats F Time) (c : Coercions F Time)
      → ReadsTexts formats c
      → (base : Envelope Time) (answers : Answers) (msg_id : Text) (e : Event F) (s : Sinks Db F)
      → c.uuid base.trace_id ≡ some base.trace_id
      → IsTyped formats c e
      → process_one redis dumps loads sampler parsers
          (model_validate c)
          answers
          msg_id
          (to_stream_dict formats base e)
          s
        ≡ (if is_step e
            then (err validation_error, s)
            else (ok tt, deliver_one answers msg_id e (to_stream_dict formats base e) s))
  unfolding process_one
  process_one-published formats c r base answers msg_id e s t h =
      rw (parse_event-to_stream_dict formats c r base e t h)
        (process_parsed-received answers msg_id e (to_stream_dict formats base e) s)
