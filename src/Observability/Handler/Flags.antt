-- ===== src/Observability/Handler/Flags.antt =====
-- handler.py: what one event leaves of the failure flags, the traces and the acknowledgements.
use sutram.Prelude.{
  List, [], ◌∷◌, Bool, true, false, ◌≡◌, refl, arith, Text, text_eq, text_eq_refl, Result, ok, err,
  codes, Bool-cases, inl, inr, ap, Option-cases, ◌∙◌,
}
use sutram.Prelude.Dicts.{Dict}
use sutram.Models.{Uuid}
use sutram.Events.{
  Event, ExecutionIds, ExecutionCompleted, execution_started, step_completed, step_failed,
  execution_completed, execution_paused, memory_written, memory_searched,
}
use sutram.Observability.Sampler.{
  Buffer, TailSampler, buffer_key, failure_key, is_truthy, buffer_span, mark_has_failure,
  should_keep, flush,
}
use sutram.Observability.Spans.{Parsers, span_from_dict, ExecutionTrace}
use sutram.Observability.Handler.{
  Sinks, Answers, handle, on_execution_completed, keep_trace, write_spans, session_flush, Parsed,
  event, completion_trace, HandleError,
}
use sutram.Prelude.Program.{Program, continue}
use mathlib.Core.List.{Memᴰ}

-- The event is the completion of this execution.
abbrev pub completes : {F : Type 0} → Uuid → Event F → Bool
completes x (execution_completed ids e) = text_eq ids.execution_id x
completes x _ = false

abbrev pub parsed_completes : {F : Type 0} → Uuid → Parsed F → Bool
parsed_completes x (event e) = completes x e
parsed_completes x _ = false

module _ {Db F : Type 0} (redis : Buffer Db) (dumps : Dict → Text) (loads : Text → Dict)
    (sampler : TailSampler) (parsers : Parsers F) where
  abbrev pub is_flagged : Uuid → Db → Bool
  is_flagged x d = is_truthy (redis.get (failure_key x) d)

  buffer-continue :
      (r : Result HandleError (Unit {0})) (n : Program HandleError (Sinks Db F) (Unit {0}))
      (s : Sinks Db F)
      → ((t : Sinks Db F) → (n t).1.buffer ≡ t.buffer)
      → (continue r (λ u. n) s).1.buffer ≡ s.buffer
  buffer-continue (ok u) n s h = h s
  buffer-continue (err e) n s h = refl

  traces-continue :
      (x : ExecutionTrace F) (r : Result HandleError (Unit {0}))
      (n : Program HandleError (Sinks Db F) (Unit {0})) (s : Sinks Db F)
      → ((t : Sinks Db F) → Memᴰ x t.traces → Memᴰ x (n t).1.traces)
      → Memᴰ x s.traces
      → Memᴰ x (continue r (λ u. n) s).1.traces
  traces-continue x (ok u) n s h m = h s m
  traces-continue x (err e) n s h m = m

  flagged-buffer_span :
      (x y : Uuid) (k : Text) (message : Dict) (d : Db)
      → is_flagged x (buffer_span redis dumps loads sampler y k message d) ≡ is_flagged x d
  unfolding buffer_span
  flagged-buffer_span x y k message d =
      let f = redis.get-hset (buffer_key y) (failure_key x) k (dumps message) d refl in
      let g =
        redis.get-expire (buffer_key y) (failure_key x) sampler.ttl_seconds
          (redis.hset (buffer_key y) k (dumps message) d) in
      ap is_truthy (g ∙ f)

  flagged-mark :
      (x y : Uuid) (d : Db)
      → is_flagged x d ≡ true
      → is_flagged x (mark_has_failure redis dumps loads sampler y d) ≡ true
  unfolding mark_has_failure
  flagged-mark x y d h =
      ground (
        arith,
        h,
        redis.get-set_ex (failure_key y) (failure_key x) (codes "1") sampler.ttl_seconds d,
      )

  flagged-flush :
      (x y : Uuid) (d : Db)
      → text_eq y x ≡ false
      → is_flagged x (flush redis dumps loads sampler y d).1 ≡ is_flagged x d
  unfolding flush
  flagged-flush x y d h =
      ground (arith, h, redis.get-delete (buffer_key y) (failure_key y) (failure_key x) d)

  pub unflagged-flush :
      (x : Uuid) (d : Db) → is_flagged x (flush redis dumps loads sampler x d).1 ≡ false
  unfolding flush
  unflagged-flush x d = ground (
    arith,
    redis.get-delete (buffer_key x) (failure_key x) (failure_key x) d,
    text_eq_refl (failure_key x),
  )

  buffer-write_spans :
      (spans : List Dict) (t w : Uuid) (s : Sinks Db F)
      → (write_spans redis dumps loads sampler parsers spans t w s).1.buffer ≡ s.buffer
  unfolding write_spans
  buffer-write_spans [] t w s = refl
  buffer-write_spans (span ∷ spans) t w s = elim (Option-cases (span_from_dict parsers span t w)) [
    | inl e ↦ rw e refl
    | inr (trace, e) ↦ rw e (buffer-write_spans spans t w (record s { traces = trace ∷ s.traces }))
  ]

  traces-write_spans :
      (x : ExecutionTrace F) (spans : List Dict) (t w : Uuid) (s : Sinks Db F)
      → Memᴰ x s.traces
      → Memᴰ x (write_spans redis dumps loads sampler parsers spans t w s).1.traces
  unfolding write_spans
  traces-write_spans x [] t w s m = m
  traces-write_spans x (span ∷ spans) t w s m =
      elim (Option-cases (span_from_dict parsers span t w)) [
        | inl e ↦ rw e m
        | inr (trace, e) ↦
            rw e (
              traces-write_spans x spans t w (record s { traces = trace ∷ s.traces }) (Memᴰ.tail m))
      ]

  buffer-session_flush :
      (flushes : Bool) (s : Sinks Db F)
      → (session_flush redis dumps loads sampler parsers flushes s).1 ≡ s
  unfolding session_flush
  buffer-session_flush true s = refl
  buffer-session_flush false s = refl

  buffer-keep_trace :
      (flushes : Bool) (ids : ExecutionIds) (e : ExecutionCompleted F) (s : Sinks Db F)
      → (keep_trace redis dumps loads sampler parsers flushes ids e s).1.buffer
        ≡ (flush redis dumps loads sampler ids.execution_id s.buffer).1
  unfolding keep_trace
  buffer-keep_trace flushes ids e s =
      let (spans, d) = flush redis dumps loads sampler ids.execution_id s.buffer in
      let t = record s {
        buffer = d;
        traces = completion_trace redis dumps loads sampler parsers ids e ∷ s.traces;
      } in
      let (r, t') =
        write_spans redis dumps loads sampler parsers spans ids.tenant_id ids.workflow_id t in
      buffer-continue r (session_flush redis dumps loads sampler parsers flushes) t'
        (λ u. ap (λ x. x.buffer) (buffer-session_flush flushes u))
      ∙ buffer-write_spans spans ids.tenant_id ids.workflow_id t

  traces-keep_trace :
      (flushes : Bool) (ids : ExecutionIds) (e : ExecutionCompleted F) (s : Sinks Db F)
      → Memᴰ
          (completion_trace redis dumps loads sampler parsers ids e)
          (keep_trace redis dumps loads sampler parsers flushes ids e s).1.traces
  unfolding keep_trace
  traces-keep_trace flushes ids e s =
      let (spans, d) = flush redis dumps loads sampler ids.execution_id s.buffer in
      let x = completion_trace redis dumps loads sampler parsers ids e in
      let t = record s { buffer = d; traces = x ∷ s.traces } in
      let (r, t') =
        write_spans redis dumps loads sampler parsers spans ids.tenant_id ids.workflow_id t in
      traces-continue x r (session_flush redis dumps loads sampler parsers flushes) t'
        (λ u m. rw (buffer-session_flush flushes u) m)
        (traces-write_spans x spans ids.tenant_id ids.workflow_id t (Memᴰ.head refl))

  pub buffer-completed :
      (answers : Answers) (ids : ExecutionIds) (e : ExecutionCompleted F) (s : Sinks Db F)
      → (on_execution_completed redis dumps loads sampler parsers answers ids e s).1.buffer
        ≡ (flush redis dumps loads sampler ids.execution_id s.buffer).1
  unfolding on_execution_completed
  buffer-completed answers ids e s =
      elim (Bool-cases (
        should_keep redis dumps loads sampler ids.execution_id e.total_duration_ms answers.sampled
          s.buffer)) [
            | inl k ↦ rw k (
                let (r, t) = keep_trace redis dumps loads sampler parsers answers.flushes ids e s in
                buffer-continue r _ t (λ u. refl) ∙ buffer-keep_trace answers.flushes ids e s)
            | inr k ↦ rw k refl
          ]

  pub handle-flagged :
      (x : Uuid) (answers : Answers) (e : Event F) (message : Dict) (s : Sinks Db F)
      → completes x e ≡ false
      → is_flagged x s.buffer ≡ true
      → is_flagged x (handle redis dumps loads sampler parsers answers e message s).1.buffer ≡ true
  unfolding handle
  handle-flagged x answers (execution_started ids) message s h f =
      flagged-buffer_span x ids.execution_id _ message s.buffer ∙ f
  handle-flagged x answers (step_completed ids e) message s h f =
      flagged-buffer_span x ids.execution_id _ message s.buffer ∙ f
  handle-flagged x answers (step_failed ids e) message s h f =
      flagged-mark x ids.execution_id _
        (flagged-buffer_span x ids.execution_id _ message s.buffer ∙ f)
  handle-flagged x answers (execution_completed ids e) message s h f =
      ap (is_flagged x) (buffer-completed answers ids e s)
      ∙ flagged-flush x ids.execution_id s.buffer h
      ∙ f
  handle-flagged x answers (execution_paused ids e) message s h f = f
  handle-flagged x answers (memory_written e) message s h f = f
  handle-flagged x answers (memory_searched e) message s h f = f

  pub traces-completed :
      (answers : Answers) (ids : ExecutionIds) (e : ExecutionCompleted F) (s : Sinks Db F)
      → is_flagged ids.execution_id s.buffer ≡ true
      → Memᴰ
          (completion_trace redis dumps loads sampler parsers ids e)
          (on_execution_completed redis dumps loads sampler parsers answers ids e s).1.traces
  unfolding on_execution_completed should_keep
  traces-completed answers ids e s f =
      let (r, t) = keep_trace redis dumps loads sampler parsers answers.flushes ids e s in
      rw f (
        traces-continue (completion_trace redis dumps loads sampler parsers ids e) r _ t (λ u m. m)
          (traces-keep_trace answers.flushes ids e s))

  acked-continue :
      (r : Result HandleError (Unit {0})) (n : Program HandleError (Sinks Db F) (Unit {0}))
      (s : Sinks Db F)
      → ((t : Sinks Db F) → (n t).1.acked ≡ t.acked)
      → (continue r (λ u. n) s).1.acked ≡ s.acked
  acked-continue (ok u) n s h = h s
  acked-continue (err e) n s h = refl

  acked-write_spans :
      (spans : List Dict) (t w : Uuid) (s : Sinks Db F)
      → (write_spans redis dumps loads sampler parsers spans t w s).1.acked ≡ s.acked
  unfolding write_spans
  acked-write_spans [] t w s = refl
  acked-write_spans (span ∷ spans) t w s = elim (Option-cases (span_from_dict parsers span t w)) [
    | inl e ↦ rw e refl
    | inr (trace, e) ↦ rw e (acked-write_spans spans t w (record s { traces = trace ∷ s.traces }))
  ]

  acked-keep_trace :
      (flushes : Bool) (ids : ExecutionIds) (e : ExecutionCompleted F) (s : Sinks Db F)
      → (keep_trace redis dumps loads sampler parsers flushes ids e s).1.acked ≡ s.acked
  unfolding keep_trace
  acked-keep_trace flushes ids e s =
      let (spans, d) = flush redis dumps loads sampler ids.execution_id s.buffer in
      let t = record s {
        buffer = d;
        traces = completion_trace redis dumps loads sampler parsers ids e ∷ s.traces;
      } in
      let (r, t') =
        write_spans redis dumps loads sampler parsers spans ids.tenant_id ids.workflow_id t in
      acked-continue r (session_flush redis dumps loads sampler parsers flushes) t'
        (λ u. ap (λ x. x.acked) (buffer-session_flush flushes u))
      ∙ acked-write_spans spans ids.tenant_id ids.workflow_id t

  pub acked-completed :
      (answers : Answers) (ids : ExecutionIds) (e : ExecutionCompleted F) (s : Sinks Db F)
      → is_flagged ids.execution_id s.buffer ≡ true
      → (on_execution_completed redis dumps loads sampler parsers answers ids e s).1.acked ≡ s.acked
  unfolding on_execution_completed should_keep
  acked-completed answers ids e s f =
      let (r, t) = keep_trace redis dumps loads sampler parsers answers.flushes ids e s in
      rw f (acked-continue r _ t (λ u. refl) ∙ acked-keep_trace answers.flushes ids e s)
