-- ===== src/Tests/Messages.antt =====
-- The messages of a failed step and of a completed execution, read by coercions on small types.
use sutram.Prelude.{
  ℕ, Bool, true, false, none, some, codes, text_eq, str_int, if◌then◌else◌, ◌≡◌, refl, Text, List,
  [], ◌∷◌, Option, map, not, any, ◌+◌, length,
}
use sutram.Prelude.Strings.Decimal.{read_int, read_int-str_int}
use sutram.Events.{Event, ExecutionIds, step_failed, step_completed}
use sutram.Events.Messages.{Envelope, Formats, to_stream_dict, str_bool}
use sutram.Events.Classes.{Coercions, ReadsTexts, model_validate}
use sutram.Events.Classes.Types.{IsOf}
use sutram.Observability.Handler.{event, parse_event}
use sutram.Observability.Handler.Messages.{parse_event-to_stream_dict, parse_event-IsOf}
use sutram.Observability.Loop.{Progress, run_messages}
use sutram.Observability.Loop.Published.{
  Sent, before_step, message, deliver_all, run_messages-published,
}
use sutram.Observability.Handler.Messages.{is_step}
use sutram.Tests.Observability.{redis, sampler, parsers}

abbrev formats : Formats ℕ ℕ
formats = record { str_float = str_int; str_datetime = str_int; dumps = λ outputs. codes "{}" }

abbrev coercions : Coercions ℕ ℕ
coercions = record {
  uuid = some;
  integer = λ t. some (read_int t);
  float = λ t. some (read_int t);
  boolean = λ t. some (text_eq t (codes "True"));
  datetime = λ t. some (read_int t);
  string = λ t. if text_eq t (codes "fetch") then some "fetch" else none;
  memory_type = some;
  dict = λ t. none;
  uuid4 = codes "0";
  now = 0;
  empty = record { simulated = false; step = "" };
  zero_cost = 0;
}

boolean_lem : (b : Bool) → coercions.boolean (str_bool b) ≡ some b
boolean_lem true = refl
boolean_lem false = refl

reads : ReadsTexts formats coercions
reads = record {
  integer-str_int = λ n. rw (read_int-str_int n) refl;
  float-str_float = λ n. rw (read_int-str_int n) refl;
  boolean-str_bool = boolean_lem;
  datetime-str_datetime = λ n. rw (read_int-str_int n) refl;
  dict-text = λ t. refl;
}

abbrev base : Envelope ℕ
base = record { trace_id = codes "ab"; timestamp = 12; schema_version = 1 }

abbrev ids : ExecutionIds
ids = record { tenant_id = codes "7a"; execution_id = codes "0b"; workflow_id = codes "9c" }

abbrev fetch_failed : Event ℕ
fetch_failed = step_failed ids (record {
  step_name = "fetch";
  step_index = 10;
  error_type = "fetch";
  error_message = "fetch";
  will_retry = true;
})

parse_event-to_stream_dict_example :
    parse_event (model_validate coercions) (to_stream_dict formats base fetch_failed)
    ≡ event fetch_failed
parse_event-to_stream_dict_example =
    parse_event-to_stream_dict formats coercions reads base fetch_failed refl
      ((refl, refl, refl), refl, refl, refl)

parse_event-IsOf_example :
    IsOf coercions
      (to_stream_dict formats base fetch_failed)
      (codes "execution.step.failed")
      fetch_failed
unfolding to_stream_dict
parse_event-IsOf_example =
    parse_event-IsOf coercions (to_stream_dict formats base fetch_failed) fetch_failed (
      parse_event-to_stream_dict formats coercions reads base fetch_failed refl
        ((refl, refl, refl), refl, refl, refl))

abbrev fetched : Event ℕ
fetched = step_completed ids (record {
  step_name = "fetch";
  step_index = 3;
  duration_ms = 8;
  cost_usd = 2;
  outputs = record { simulated = true; step = "fetch" };
})

abbrev sent : Event ℕ → Sent ℕ ℕ
sent e = record {
  answers = record { sampled = true; flushes = true; commits = true; acks = true };
  msg_id = codes "1";
  base = base;
  event = e;
}

abbrev progress : Progress (Text → Option Text) ℕ
progress = record {
  messages_processed = 49;
  sinks = record { buffer = λ k. none; traces = []; audits = []; metrics = []; acked = [] };
}

abbrev batch : List (Sent ℕ ℕ)
batch = sent fetch_failed ∷ sent fetched ∷ sent fetch_failed ∷ []

run_messages-published_example :
    run_messages redis
      (λ d. [])
      (λ t. [])
      sampler
      parsers
      (model_validate coercions)
      (map (message formats) batch)
      progress
    ≡ (
      not (any (λ x. is_step x.event) batch),
      record {
        messages_processed = 49 + length (before_step batch);
        sinks =
            deliver_all formats coercions redis
              (λ d. [])
              (λ t. [])
              sampler
              parsers
              (before_step batch)
              progress.sinks;
      },
    )
run_messages-published_example =
    run_messages-published formats coercions redis (λ d. []) (λ t. []) sampler parsers reads batch
      progress
      (
        (refl, ((refl, refl, refl), refl, refl, refl)),
        ((refl, ((refl, refl, refl), refl)), ((refl, ((refl, refl, refl), refl, refl, refl)), tt)),
      )

only_first : before_step batch ≡ sent fetch_failed ∷ []
unfolding before_step
only_first = refl
