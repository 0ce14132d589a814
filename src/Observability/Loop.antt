-- ===== src/Observability/Loop.antt =====
-- services/observability-service/app/consumer/loop.py: the rounds of the consumer. What Redis
-- answers to a round is an argument: the messages of both streams, each with the answers of the
-- outside for it, or an exception of the read; and what XAUTOCLAIM gives back.
pub mod Published
use sutram.Prelude.{
  ℕ, ◌+◌, ◌%◌, zero, suc, List, [], ◌∷◌, Bool, true, false, ◌&&◌, ltb, ◌==◌, if◌then◌else◌, Option,
  none, some, Text, Result, ok, err,
}
use sutram.Prelude.Dicts.{Dict}
use sutram.Events.{Event}
use sutram.Observability.Sampler.{Buffer, TailSampler}
use sutram.Observability.Spans.{Parsers}
use sutram.Observability.Handler.{Sinks, Answers, HandleError, database_error, process_one}

abbrev pub Message : Type 0
Message = Answers × Text × Dict

-- `none` is an exception of the command.
pub record Round : Type 0 where
  pub executions : Option (List Message)
  pub memory : Option (List Message)
  pub claimed_executions : Option (List Message)
  pub claimed_memory : Option (List Message)

-- `messages_processed`, and what the handling changes.
pub record Progress (Db F : Type 0) : Type 0 where
  pub messages_processed : ℕ
  pub sinks : Sinks Db F

module _ {Db F : Type 0} (redis : Buffer Db) (dumps : Dict → Text) (loads : Text → Dict)
    (sampler : TailSampler) (parsers : Parsers F) (validate : Text → Dict → Option (Event F)) where
  after_one :
      (Progress Db F → Bool × Progress Db F)
      → Result HandleError (Unit {0}) × Sinks Db F
      → Progress Db F
      → Bool × Progress Db F
  after_one rest (ok u, s) p =
      rest (record { messages_processed = p.messages_processed + 1; sinks = s })
  after_one rest (err e, s) p = (false, record p { sinks = s })

  -- The loop over the messages of one read, which an exception leaves; whether it went through.
  unfoldable pub run_messages : List Message → Progress Db F → Bool × Progress Db F
  unfolding after_one
  run_messages [] p = (true, p)
  run_messages ((answers, msg_id, message) ∷ messages) p =
      after_one (run_messages messages)
        (process_one redis dumps loads sampler parsers validate answers msg_id message p.sinks) p

  run_read : Option (List Message) → Progress Db F → Bool × Progress Db F
  run_read none p = (false, p)
  run_read (some messages) p = run_messages messages p

  -- `_reclaim_pending`, which catches every exception and does not count.
  reclaim_pending : Option (List Message) → Progress Db F → Progress Db F
  reclaim_pending none p = p
  reclaim_pending (some messages) p = record p { sinks = (run_messages messages p).1.sinks }

  unfoldable pub is_reclaim_due : ℕ → Bool
  is_reclaim_due n = ltb 0 n && (n % 50 == 0)

  reclaim_both : Round → Progress Db F → Progress Db F
  unfolding reclaim_pending is_reclaim_due
  reclaim_both r p =
      if is_reclaim_due p.messages_processed
      then reclaim_pending r.claimed_memory (reclaim_pending r.claimed_executions p)
      else p

  -- One round of the `while True`, whose exceptions are logged.
  unfoldable pub run_round : Round → Progress Db F → Progress Db F
  unfolding run_read reclaim_both
  run_round r p =
      let (read, p') = run_read r.executions p in
      let (read', p'') = run_read r.memory p' in
      if read then (if read' then reclaim_both r p'' else p'') else p'

  unfoldable pub run_consumer_loop : List Round → Progress Db F → Progress Db F
  run_consumer_loop [] p = p
  run_consumer_loop (r ∷ rounds) p = run_consumer_loop rounds (run_round r p)
