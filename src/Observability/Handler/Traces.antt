-- ===== src/Observability/Handler/Traces.antt =====
-- handler.py and loop.py: the traces of executions with a failed step.
use sutram.Prelude.{
  List, [], ◌∷◌, ◌++◌, Bool, true, false, ◌≡◌, refl, arith, Option, Text, text_eq_refl, Result, ok,
  err, codes, inl, inr, ◌||◌, ap, ◌∙◌, All, ◌⊎◌, str_int, ltb, Bool-cases,
}
use sutram.Prelude.Dicts.{Dict}
use sutram.Models.{Uuid}
use sutram.Events.{
  Event, ExecutionIds, StepFailed, ExecutionCompleted, step_failed, execution_completed,
}
use sutram.Observability.Sampler.{
  Buffer, TailSampler, failure_key, buffer_span, mark_has_failure, should_keep,
}
use sutram.Observability.Spans.{Parsers, ExecutionTrace}
use sutram.Observability.Handler.{
  Sinks, Answers, handle, on_execution_completed, process_one, process_parsed, settle, Parsed,
  unknown_event_type, invalid, event, parse_event, completion_trace, HandleError,
}
use mathlib.Core.List.{Memᴰ}
use sutram.Observability.Handler.Flags.{
  parsed_completes, is_flagged, buffer-completed, handle-flagged, traces-completed, acked-completed,
  unflagged-flush,
}

module _ {Db F : Type 0} (redis : Buffer Db) (dumps : Dict → Text) (loads : Text → Dict)
    (sampler : TailSampler) (parsers : Parsers F) where
  module _ (validate : Text → Dict → Option (Event F)) where
    -- Messages taken in turn; the loop goes on after an exception.
    unfoldable pub process_all : List (Answers × Text × Dict) → Sinks Db F → Sinks Db F
    process_all [] s = s
    process_all ((answers, msg_id, message) ∷ rest) s =
        process_all rest
          (process_one redis dumps loads sampler parsers validate answers msg_id message s).1

    buffer-settle :
        (msg_id : Text) (s : Sinks Db F) (commits acks : Bool)
        (r : Result HandleError (Unit {0}) × Sinks Db F)
        → (settle redis dumps loads sampler parsers msg_id s commits acks r).buffer ≡ r.1.buffer
    unfolding settle
    buffer-settle msg_id s true true (ok u, t) = refl
    buffer-settle msg_id s true false (ok u, t) = refl
    buffer-settle msg_id s false acks (ok u, t) = refl
    buffer-settle msg_id s commits acks (err e, t) = refl

    process_parsed-flagged :
        (x : Uuid) (answers : Answers) (msg_id : Text) (p : Parsed F) (message : Dict)
        (s : Sinks Db F)
        → parsed_completes x p ≡ false
        → is_flagged redis dumps loads sampler parsers x s.buffer ≡ true
        → is_flagged redis dumps loads sampler parsers x
            (process_parsed redis dumps loads sampler parsers answers msg_id p message s).1.buffer
          ≡ true
    unfolding process_parsed
    process_parsed-flagged x answers msg_id unknown_event_type message s h f =
        elim (Bool-cases answers.acks) [ inl e ↦ rw e f | inr e ↦ rw e f ]
    process_parsed-flagged x answers msg_id invalid message s h f = f
    process_parsed-flagged x answers msg_id (event e) message s h f =
        ap (is_flagged redis dumps loads sampler parsers x) (
          buffer-settle msg_id s answers.commits answers.acks
            (handle redis dumps loads sampler parsers answers e message s))
        ∙ handle-flagged redis dumps loads sampler parsers x answers e message s h f

    process_all-flagged :
        (x : Uuid) (messages : List (Answers × Text × Dict)) (s : Sinks Db F)
        → All (λ m. parsed_completes x (parse_event validate m.2) ≡ false) messages
        → is_flagged redis dumps loads sampler parsers x s.buffer ≡ true
        → is_flagged redis dumps loads sampler parsers x (process_all messages s).buffer ≡ true
    unfolding process_all process_one
    process_all-flagged x [] s h f = f
    process_all-flagged x ((answers, msg_id, message) ∷ rest) s h f =
        process_all-flagged x rest _ h.1
          (process_parsed-flagged x answers msg_id (parse_event validate message) message s h.0 f)

    -- What a completion leaves: it is acknowledged with its own row among the traces, or it is not
    -- acknowledged and no row is kept; or its row is kept and the XACK alone failed.
    abbrev pub IsKeptOrPending :
        Answers → Text → ExecutionTrace F → Sinks Db F → Sinks Db F → Type 0
    IsKeptOrPending answers msg_id trace s s' =
        ((answers.commits ≡ true)
          × (answers.acks ≡ true)
          × (s'.acked ≡ msg_id ∷ s.acked)
          × Memᴰ trace s'.traces)
        ⊎ ((s'.acked ≡ s.acked)
            × ((s'.traces ≡ s.traces)
                ⊎ ((answers.commits ≡ true) × (answers.acks ≡ false) × Memᴰ trace s'.traces)))

    settle-IsKeptOrPending :
        (answers : Answers) (msg_id : Text) (trace : ExecutionTrace F) (s : Sinks Db F)
        (commits acks : Bool) (r : Result HandleError (Unit {0})) (t : Sinks Db F)
        → answers.commits ≡ commits
        → answers.acks ≡ acks
        → t.acked ≡ s.acked
        → Memᴰ trace t.traces
        → IsKeptOrPending answers msg_id trace s
            (settle redis dumps loads sampler parsers msg_id s commits acks (r, t))
    unfolding settle
    settle-IsKeptOrPending answers msg_id trace s true true (ok u) t c k a m =
        inl (c, k, ap (λ l. msg_id ∷ l) a, m)
    settle-IsKeptOrPending answers msg_id trace s true false (ok u) t c k a m =
        inr (a, inr (c, k, m))
    settle-IsKeptOrPending answers msg_id trace s false acks (ok u) t c k a m = inr (a, inl refl)
    settle-IsKeptOrPending answers msg_id trace s commits acks (err e) t c k a m = inr (a, inl refl)

    process_failed :
        (answers : Answers) (msg_id : Text) (message : Dict) (ids : ExecutionIds)
        (failure : StepFailed) (s : Sinks Db F)
        → parse_event validate message ≡ event (step_failed ids failure)
        → is_flagged redis dumps loads sampler parsers ids.execution_id
            (process_one redis dumps loads sampler parsers validate answers msg_id message
              s).1.buffer
          ≡ true
    unfolding process_one process_parsed handle mark_has_failure
    process_failed answers msg_id message ids failure s h =
        let k = failure_key ids.execution_id in
        let r =
          handle redis dumps loads sampler parsers answers (step_failed ids failure) message s in
        let put = redis.get-set_ex k k (codes "1") sampler.ttl_seconds (
          buffer_span redis dumps loads sampler ids.execution_id
            (codes "step_failed:" ++ str_int failure.step_index) message s.buffer) in
        rw h (
          ap (is_flagged redis dumps loads sampler parsers ids.execution_id)
            (buffer-settle msg_id s answers.commits answers.acks r)
          ∙ ground (arith, put, text_eq_refl k))

    process_all_from :
        (x : Uuid) (answers : Answers) (msg_id : Text) (message : Dict)
        (messages : List (Answers × Text × Dict)) (s : Sinks Db F)
        → All (λ m. parsed_completes x (parse_event validate m.2) ≡ false) messages
        → is_flagged redis dumps loads sampler parsers x
            (process_one redis dumps loads sampler parsers validate answers msg_id message
              s).1.buffer
          ≡ true
        → is_flagged redis dumps loads sampler parsers x
            (process_all ((answers, msg_id, message) ∷ messages) s).buffer
          ≡ true
    unfolding process_all
    process_all_from x answers msg_id message messages s others f =
        process_all-flagged x messages _ others f

    process_completed :
        (answers : Answers) (msg_id : Text) (message : Dict) (ids : ExecutionIds)
        (e : ExecutionCompleted F) (t : Sinks Db F)
        → parse_event validate message ≡ event (execution_completed ids e)
        → is_flagged redis dumps loads sampler parsers ids.execution_id t.buffer ≡ true
        → IsKeptOrPending answers msg_id
            (completion_trace redis dumps loads sampler parsers ids e)
            t
            (process_one redis dumps loads sampler parsers validate answers msg_id message t).1
    unfolding process_one process_parsed handle
    process_completed answers msg_id message ids e t h f =
        let (r, u) = on_execution_completed redis dumps loads sampler parsers answers ids e t in
        rw h (
          settle-IsKeptOrPending answers msg_id
            (completion_trace redis dumps loads sampler parsers ids e) t answers.commits
            answers.acks r u refl refl
            (acked-completed redis dumps loads sampler parsers answers ids e t f)
            (traces-completed redis dumps loads sampler parsers answers ids e t f))

    -- An execution of which a failed step has been taken from the stream, and after it any messages
    -- but its completion: whatever the random draw, the completion is acknowledged only with its
    -- row among the traces, after the commit; where it is not acknowledged, no row is kept, unless
    -- the commit went through and XACK failed, and then the row is kept.
    -- The TTL of the failure flag does not run out in between.
    pub process_one-IsKeptOrPending :
        (answers answers' : Answers) (msg_id msg_id' : Text) (message message' : Dict)
        (ids ids' : ExecutionIds) (failure : StepFailed) (e : ExecutionCompleted F)
        (messages : List (Answers × Text × Dict)) (s : Sinks Db F)
        → parse_event validate message ≡ event (step_failed ids failure)
        → All (λ m. parsed_completes ids.execution_id (parse_event validate m.2) ≡ false) messages
        → parse_event validate message' ≡ event (execution_completed ids' e)
        → ids'.execution_id ≡ ids.execution_id
        → IsKeptOrPending answers' msg_id'
            (completion_trace redis dumps loads sampler parsers ids' e)
            (process_all ((answers, msg_id, message) ∷ messages) s)
            (process_one redis dumps loads sampler parsers validate answers' msg_id' message'
              (process_all ((answers, msg_id, message) ∷ messages) s)).1
    process_one-IsKeptOrPending answers answers' msg_id msg_id' message message' ids ids' failure e
          messages s fails others done same =
        let t = process_all ((answers, msg_id, message) ∷ messages) s in
        let first = process_failed answers msg_id message ids failure s fails in
        let f : is_flagged redis dumps loads sampler parsers ids'.execution_id t.buffer ≡ true =
          rw same
            (process_all_from ids.execution_id answers msg_id message messages s others first) in
        process_completed answers' msg_id' message' ids' e t done f

    rolled_back :
        (msg_id : Text) (s : Sinks Db F) (commits acks : Bool)
        (r : Result HandleError (Unit {0}) × Sinks Db F)
        → commits ≡ false
        → (settle redis dumps loads sampler parsers msg_id s commits acks r).traces ≡ s.traces
    unfolding settle
    rolled_back msg_id s true acks (ok u, t) h = cc
    rolled_back msg_id s false acks (ok u, t) h = refl
    rolled_back msg_id s commits acks (err e, t) h = refl

    -- A completion whose session fails at the commit has dropped the execution's failure flag
    -- all the same: when it is delivered again, only the duration and the random draw decide
    -- whether the trace is kept.
    pub process_one-forgets :
        (answers : Answers) (msg_id : Text) (message : Dict) (ids : ExecutionIds)
        (e : ExecutionCompleted F) (s : Sinks Db F) (sampled : Bool)
        → parse_event validate message ≡ event (execution_completed ids e)
        → answers.commits ≡ false
        → ((process_one redis dumps loads sampler parsers validate answers msg_id message
              s).1.traces
            ≡ s.traces)
          × (should_keep redis dumps loads sampler ids.execution_id e.total_duration_ms sampled
                (process_one redis dumps loads sampler parsers validate answers msg_id message
                  s).1.buffer
              ≡ (ltb sampler.slow_threshold_ms e.total_duration_ms || sampled))
    unfolding process_one process_parsed handle should_keep
    process_one-forgets answers msg_id message ids e s sampled h c =
        let r = on_execution_completed redis dumps loads sampler parsers answers ids e s in
        rw h (
          rolled_back msg_id s answers.commits answers.acks r c,
          ap (λ b. b || (ltb sampler.slow_threshold_ms e.total_duration_ms || sampled))
              (ap (is_flagged redis dumps loads sampler parsers ids.execution_id) (
                  buffer-settle msg_id s answers.commits answers.acks r
                  ∙ buffer-completed redis dumps loads sampler parsers answers ids e s)
                ∙ unflagged-flush redis dumps loads sampler parsers ids.execution_id s.buffer),
        )
