-- ===== src/Observability/Loop/Published.antt =====
-- services/observability-service/app/consumer/loop.py: a batch of messages that the other services
-- have published.
use sutram.Prelude.{
  ◌+◌, List, [], ◌∷◌, map, length, any, All, not, Text, ◌≡◌, some, if◌then◌else◌, Bool-cases, inl,
  inr, ℕ, arith, suc,
}
use sutram.Prelude.Dicts.{Dict}
use sutram.Events.{Event}
use sutram.Events.Messages.{Envelope, Formats, to_stream_dict}
use sutram.Events.Classes.{Coercions, ReadsTexts, model_validate}
use sutram.Observability.Sampler.{Buffer, TailSampler}
use sutram.Observability.Spans.{Parsers}
use sutram.Observability.Handler.{Sinks, Answers}
use sutram.Observability.Handler.Messages.{IsTyped, is_step, deliver_one, process_one-published}
use sutram.Observability.Loop.{Message, Progress, run_messages, after_one}

zero_right : (n : ℕ) → n + 0 ≡ n
zero_right n = omega arith

one_right : (n k : ℕ) → n + 1 + k ≡ n + suc k
one_right n k = omega arith

-- A published event with its message id, and what the outside answers while it is handled.
pub record Sent (F Time : Type 0) : Type 0 where
  pub answers : Answers
  pub msg_id : Text
  pub base : Envelope Time
  pub event : Event F

-- The events before the first completed step.
unfoldable pub before_step : {F Time : Type 0} → List (Sent F Time) → List (Sent F Time)
unfolding is_step
before_step [] = []
before_step (x ∷ xs) = let rest = before_step xs in if is_step x.event then [] else x ∷ rest

abbrev pub message : {F Time : Type 0} → Formats F Time → Sent F Time → Message
message formats x = (x.answers, x.msg_id, to_stream_dict formats x.base x.event)

module _ {F Time : Type 0} (formats : Formats F Time) (c : Coercions F Time) where
  abbrev pub IsGood : Sent F Time → Type 0
  IsGood x = (c.uuid x.base.trace_id ≡ some x.base.trace_id) × IsTyped formats c x.event

  module _ {Db : Type 0} (redis : Buffer Db) (dumps : Dict → Text) (loads : Text → Dict)
      (sampler : TailSampler) (parsers : Parsers F) where
    -- Each event through the handler and the end of its session.
    unfoldable pub deliver_all : List (Sent F Time) → Sinks Db F → Sinks Db F
    deliver_all [] s = s
    deliver_all (x ∷ xs) s = deliver_all xs (
        deliver_one redis dumps loads sampler parsers x.answers x.msg_id x.event
          (to_stream_dict formats x.base x.event) s)

    -- Of a batch of published events whose ids and strings have their types, where pydantic reads
    -- texts as it documents, the consumer handles the events before the first completed step, each
    -- as the event that was published, and counts them. It goes through the whole batch exactly if
    -- there is no completed step in it.
    pub run_messages-published :
        ReadsTexts formats c
        → (sent : List (Sent F Time)) (p : Progress Db F) → All IsGood sent
        → run_messages redis dumps loads sampler parsers
            (model_validate c)
            (map (message formats) sent)
            p
          ≡ (
            not (any (λ x. is_step x.event) sent),
            record {
              messages_processed = p.messages_processed + length (before_step sent);
              sinks = deliver_all (before_step sent) p.sinks;
            },
          )
    unfolding run_messages after_one before_step deliver_all
    run_messages-published r [] p h = cc (zero_right p.messages_processed)
    run_messages-published r (x ∷ xs) p h =
        let one =
          process_one-published redis dumps loads sampler parsers formats c r x.base x.answers
            x.msg_id x.event p.sinks h.0.0 h.0.1 in
        elim (Bool-cases (is_step x.event)) [
          | inl e ↦ rw one (rw e (cc (zero_right p.messages_processed)))
          | inr e ↦
              let s =
                deliver_one redis dumps loads sampler parsers x.answers x.msg_id x.event
                  (to_stream_dict formats x.base x.event) p.sinks in
              let next : Progress Db F = record {
                messages_processed = p.messages_processed + 1;
                sinks = s;
              } in
              let rest = run_messages-published r xs next h.1 in
              rw one (rw e (cc (rest, one_right p.messages_processed (length (before_step xs)))))
        ]
