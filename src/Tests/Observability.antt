-- ===== src/Tests/Observability.antt =====
-- The theorems of the event handler at one execution with a failed step.
use sutram.Prelude.{
  ℕ, List, [], ◌∷◌, Bool, true, false, ◌≡◌, refl, Option, none, some, Text, codes, text_eq,
  if◌then◌else◌, ◌||◌, arith,
}
use sutram.Prelude.Dicts.{Dict}
use sutram.Models.{failed}
use sutram.Events.{
  Event, ExecutionIds, StepFailed, ExecutionCompleted, step_failed, execution_completed,
}
use sutram.Observability.Sampler.{Buffer, TailSampler, should_keep}
use sutram.Observability.Spans.{Parsers}
use sutram.Observability.Handler.{Sinks, Answers, process_one, completion_trace, parse_event}
use sutram.Observability.Handler.Traces.{
  process_all, IsKeptOrPending, process_one-IsKeptOrPending, process_one-forgets,
}

-- The plain keys only: no span is given back.
abbrev pub Keys : Type 0
Keys = Text → Option Text

abbrev pub drop_all : List Text → Keys → Keys
drop_all [] d = d
drop_all (k ∷ ks) d = λ j. if text_eq k j then none else drop_all ks d j

pub drop_two :
    (k l j : Text) (d : Keys)
    → drop_all (k ∷ l ∷ []) d j ≡ (if text_eq k j || text_eq l j then none else d j)
drop_two k l j d = ground arith

abbrev pub redis : Buffer Keys
redis = record {
  hset = λ k f v d. d;
  hvals = λ k d. [];
  expire = λ k ttl d. d;
  set_ex = λ k v ttl d. λ j. if text_eq k j then some v else d j;
  get = λ k d. d k;
  delete = drop_all;
  get-hset = λ k j f v d h. refl;
  get-expire = λ k j ttl d. refl;
  get-set_ex = λ k j v ttl d. refl;
  get-delete = drop_two;
}

abbrev pub sampler : TailSampler
sampler = record { ttl_seconds = 600; slow_threshold_ms = 30000 }

abbrev pub parsers : Parsers ℕ
parsers = record { uuid = λ t. some t; int = λ t. some 0; float = λ t. some 0; uuid4 = codes "u" }

abbrev pub ids : ExecutionIds
ids = record { tenant_id = codes "t"; execution_id = codes "x"; workflow_id = codes "w" }

abbrev pub failure : StepFailed
failure = record {
  step_name = "rank";
  step_index = 1;
  error_type = "E";
  error_message = "m";
  will_retry = false;
}

abbrev pub completion : ExecutionCompleted ℕ
completion = record { status = failed; total_duration_ms = 5; total_cost_usd = 0; total_steps = 2 }

abbrev pub validate : Text → Dict → Option (Event ℕ)
validate t d =
    if text_eq t (codes "execution.completed")
    then some (execution_completed ids completion)
    else some (step_failed ids failure)

abbrev message : Text → Dict
message t = (codes "event_type", t) ∷ []

abbrev answers : Bool → Answers
answers commits = record { sampled = false; flushes = true; commits = commits; acks = true }

abbrev idle : Sinks Keys ℕ
idle = record { buffer = λ k. none; traces = []; audits = []; metrics = []; acked = [] }

abbrev dumps : Dict → Text
dumps d = []

abbrev loads : Text → Dict
loads t = []

process_one-IsKeptOrPending_example :
    IsKeptOrPending redis dumps loads sampler parsers validate
      (answers true)
      (codes "2")
      (completion_trace redis dumps loads sampler parsers ids completion)
      (process_all redis dumps loads sampler parsers validate
        ((answers true, codes "1", message (codes "execution.step.failed")) ∷ [])
        idle)
      (process_one redis dumps loads sampler parsers validate
        (answers true)
        (codes "2")
        (message (codes "execution.completed"))
        (process_all redis dumps loads sampler parsers validate
          ((answers true, codes "1", message (codes "execution.step.failed")) ∷ [])
          idle)).1
unfolding parse_event
process_one-IsKeptOrPending_example =
    process_one-IsKeptOrPending redis dumps loads sampler parsers validate (answers true)
      (answers true) (codes "1") (codes "2") (message (codes "execution.step.failed"))
      (message (codes "execution.completed")) ids ids failure completion [] idle refl tt refl refl

process_one-forgets_example :
    ((process_one redis dumps loads sampler parsers validate
        (answers false)
        (codes "2")
        (message (codes "execution.completed"))
        idle).1.traces
      ≡ [])
    × (should_keep redis dumps loads sampler
          (codes "x")
          5
          false
          (process_one redis dumps loads sampler parsers validate
            (answers false)
            (codes "2")
            (message (codes "execution.completed"))
            idle).1.buffer
        ≡ false)
unfolding parse_event
process_one-forgets_example =
    process_one-forgets redis dumps loads sampler parsers validate (answers false) (codes "2")
      (message (codes "execution.completed")) ids completion idle false refl refl
