-- ===== src/Observability/Gauges.antt =====
-- services/observability-service/app/metrics/prometheus.py: the counter of executions by status and
-- the gauge of active executions, after the calls of the recording helpers. The histograms and the
-- counter of failures, which the handler leaves alone, are left out.
pub mod Balance
use sutram.Prelude.{
  ℕ, zero, suc, ◌+◌, List, [], ◌∷◌, Bool, true, false, Text, text_eq, ◌&&◌, if◌then◌else◌,
}
use sutram.Prelude.Slices.{ℤ, pos, negsuc}
use sutram.Models.{Uuid, ExecutionStatus, pending, running, paused, completed, failed, cancelled}
use sutram.Events.Messages.{status_text}
use sutram.Observability.Handler.{
  Metric, started_metric, completed_metric, step_metric, searched_metric,
}

-- ACTIVE_EXECUTIONS by tenant, and EXECUTION_TOTAL by tenant and status.
pub record Registry : Type 0 where
  pub active_executions : Uuid → ℤ
  pub execution_total : Uuid → Text → ℕ

abbrev pub inc : ℤ → ℤ
inc (pos n) = pos (suc n)
inc (negsuc zero) = pos 0
inc (negsuc (suc n)) = negsuc n

abbrev pub dec : ℤ → ℤ
dec (pos zero) = negsuc 0
dec (pos (suc n)) = pos n
dec (negsuc n) = negsuc (suc n)

-- `.labels(tenant_id=tenant_id)` on a gauge.
abbrev pub at : Uuid → (ℤ → ℤ) → (Uuid → ℤ) → Uuid → ℤ
at tenant_id f gauge tenant = if text_eq tenant tenant_id then f (gauge tenant) else gauge tenant

unfoldable pub record_execution_started : Uuid → Registry → Registry
record_execution_started tenant_id r = record r {
  active_executions = at tenant_id inc r.active_executions;
}

-- `status in ("COMPLETED", "FAILED", "CANCELLED")`.
abbrev pub is_ended : ExecutionStatus → Bool
is_ended completed = true
is_ended failed = true
is_ended cancelled = true
is_ended _ = false

abbrev counted : Uuid → ExecutionStatus → (Uuid → Text → ℕ) → Uuid → Text → ℕ
counted tenant_id status total tenant s =
    if text_eq tenant tenant_id && text_eq s (status_text status)
    then total tenant s + 1
    else total tenant s

unfoldable pub record_execution_completed : Uuid → ExecutionStatus → Registry → Registry
record_execution_completed tenant_id status r = record {
  active_executions =
      if is_ended status then at tenant_id dec r.active_executions else r.active_executions;
  execution_total = counted tenant_id status r.execution_total;
}

unfoldable pub record_metric : {F : Type 0} → Metric F → Registry → Registry
unfolding record_execution_started record_execution_completed
record_metric (started_metric tenant_id) r = record_execution_started tenant_id r
record_metric (completed_metric tenant_id status duration_ms cost) r =
    record_execution_completed tenant_id status r
record_metric (step_metric workflow_id step_name duration_ms) r = r
record_metric (searched_metric latency_ms) r = r

-- What a list of recorded metrics, the latest first, makes of an empty registry.
unfoldable pub registry_of : {F : Type 0} → List (Metric F) → Registry
unfolding record_metric
registry_of [] = record { active_executions = λ tenant. pos 0; execution_total = λ tenant s. 0 }
registry_of (x ∷ xs) = record_metric x (registry_of xs)
