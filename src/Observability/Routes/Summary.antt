-- ===== src/Observability/Routes/Summary.antt =====
-- services/observability-service/app/routes/metrics_api.py: the completed executions of a tenant by
-- status. The order of the groups is the database's; here it is that of the rows, from the last.
use sutram.Prelude.{
  ℕ, List, [], ◌∷◌, map, filter, length, Bool, ◌&&◌, Option, none, some, codes, text_eq, ◌==◌,
  if◌then◌else◌, Result, ok,
}
use sutram.Models.{Uuid, ExecutionStatus, pending, running, paused, completed, failed, cancelled}
use sutram.Observability.Routes.{TraceRow, RouteError, Credentials, get_tenant, ◌>>=◌}

-- GROUP BY of the status, by its number; NULL is a group of its own.
abbrev pub status_index : Option ExecutionStatus → ℕ
status_index none = 0
status_index (some pending) = 1
status_index (some running) = 2
status_index (some paused) = 3
status_index (some completed) = 4
status_index (some failed) = 5
status_index (some cancelled) = 6

abbrev pub same_status : Option ExecutionStatus → Option ExecutionStatus → Bool
same_status a b = status_index a == status_index b

pub record StatusSummary (F : Type 0) : Type 0 where
  pub status : Option ExecutionStatus
  pub count : ℕ
  pub total_cost_usd : F
  pub avg_duration_ms : F

-- SUM and AVG, which leave out NULL, and `or 0` where nothing is left.
pub record Aggregates (F : Type 0) : Type 0 where
  pub sum : List (Option F) → F
  pub avg : List (Option ℕ) → F

abbrev pub Group : Type 0 → Type 0 → Type 0
Group F Time = Option ExecutionStatus × List (TraceRow F Time)

module _ {F Time : Type 0} where
  unfoldable pub add_row : TraceRow F Time → List (Group F Time) → List (Group F Time)
  add_row row [] = (row.trace.status, row ∷ []) ∷ []
  add_row row ((status, group) ∷ groups) =
      let rest = add_row row groups in
      if same_status row.trace.status status
      then (status, row ∷ group) ∷ groups
      else (status, group) ∷ rest

  unfoldable pub group_by_status : List (TraceRow F Time) → List (Group F Time)
  unfolding add_row
  group_by_status [] = []
  group_by_status (row ∷ rows) = add_row row (group_by_status rows)

  abbrev pub summary : Aggregates F → Group F Time → StatusSummary F
  summary aggregates (status, group) = record {
    status = status;
    count = length group;
    total_cost_usd = aggregates.sum (map (λ row. row.trace.cost_usd) group);
    avg_duration_ms = aggregates.avg (map (λ row. row.trace.duration_ms) group);
  }

  abbrev pub is_completion : Uuid → TraceRow F Time → Bool
  is_completion tenant_id row =
      text_eq row.trace.tenant_id tenant_id
      && text_eq row.trace.event_type (codes "execution.completed")

  unfoldable pub get_metrics_summary :
      Aggregates F
      → Credentials
      → List (TraceRow F Time)
      → Result RouteError (List (StatusSummary F))
  unfolding get_tenant group_by_status
  get_metrics_summary aggregates caller rows = do
    tenant_id ← get_tenant caller.token caller.expected caller.tenant_id
    ok (map (summary aggregates) (group_by_status (filter (is_completion tenant_id) rows)))
