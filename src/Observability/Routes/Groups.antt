-- ===== src/Observability/Routes/Groups.antt =====
-- routes/metrics_api.py: the summary counts every completion once, under its status.
use sutram.Prelude.{
  ℕ, ◌≤◌, ◌&&◌, ◌+◌, List, [], ◌∷◌, map, filter, length, true, Option, text_eq, ok, ◌≡◌, refl,
  arith, ◌==◌, if◌then◌else◌, Bool-cases, inl, inr,
}
use sutram.Models.{ExecutionStatus}
use sutram.Middleware.InternalAuth.{verify_internal_token}
use sutram.Observability.Routes.{TraceRow, Credentials}
use sutram.Observability.Routes.Summary.{
  StatusSummary, Aggregates, Group, add_row, group_by_status, summary, is_completion, same_status,
  get_metrics_summary,
}

-- The count that a summary gives for a status.
pub count_of : {F : Type 0} → Option ExecutionStatus → List (StatusSummary F) → ℕ
count_of status [] = 0
count_of status (s ∷ ss) = (if same_status s.status status then s.count else 0) + count_of status ss

-- How many entries of a summary are for a status.
pub entries_of : {F : Type 0} → Option ExecutionStatus → List (StatusSummary F) → ℕ
entries_of status [] = 0
entries_of status (s ∷ ss) = (if same_status s.status status then 1 else 0) + entries_of status ss

module _ {F Time : Type 0} (aggregates : Aggregates F) where
  count_of-add_row :
      (status : Option ExecutionStatus) (row : TraceRow F Time) (groups : List (Group F Time))
      → count_of status (map (summary aggregates) (add_row row groups))
        ≡ (if same_status row.trace.status status then 1 else 0)
          + count_of status (map (summary aggregates) groups)
  unfolding count_of add_row
  count_of-add_row status row [] = refl
  count_of-add_row status row ((s, group) ∷ groups) =
      elim (Bool-cases (same_status row.trace.status s)) [
        | inl e ↦ rw e (ground (arith, e))
        | inr e ↦ rw e (ground (arith, count_of-add_row status row groups))
      ]

  count_of-group_by_status :
      (status : Option ExecutionStatus) (rows : List (TraceRow F Time))
      → count_of status (map (summary aggregates) (group_by_status rows))
        ≡ length (filter (λ row. same_status row.trace.status status) rows)
  unfolding count_of group_by_status
  count_of-group_by_status status [] = refl
  count_of-group_by_status status (row ∷ rows) = ground (
    arith,
    count_of-add_row status row (group_by_status rows),
    count_of-group_by_status status rows,
  )

  entries_of-add_row :
      (status : Option ExecutionStatus) (row : TraceRow F Time) (groups : List (Group F Time))
      → entries_of status (map (summary aggregates) (add_row row groups)) ≡ (
          if same_status row.trace.status status
            && (entries_of status (map (summary aggregates) groups) == 0)
          then 1
          else entries_of status (map (summary aggregates) groups))
  unfolding entries_of add_row
  entries_of-add_row status row [] = ground arith
  entries_of-add_row status row ((s, group) ∷ groups) =
      elim (Bool-cases (same_status row.trace.status s)) [
        | inl e ↦ rw e (ground (arith, e))
        | inr e ↦ rw e (ground (arith, e, entries_of-add_row status row groups))
      ]

  entries_of-group_by_status :
      (status : Option ExecutionStatus) (rows : List (TraceRow F Time))
      → entries_of status (map (summary aggregates) (group_by_status rows)) ≤ 1
  unfolding entries_of group_by_status
  entries_of-group_by_status status [] = omega arith
  entries_of-group_by_status status (row ∷ rows) = ground (
    arith,
    entries_of-add_row status row (group_by_status rows),
    entries_of-group_by_status status rows,
  )

  -- For a caller with the internal token, the summary has at most one entry for each status, and its
  -- count is the number of the tenant's completed executions in that status, none for a status
  -- with no entry.
  pub get_metrics_summary-count_of :
      (caller : Credentials) (rows : List (TraceRow F Time)) (status : Option ExecutionStatus)
      → text_eq caller.token caller.expected ≡ true
      → (summaries : List (StatusSummary F)) × (get_metrics_summary aggregates caller rows
          ≡ ok summaries)
        × (entries_of status summaries ≤ 1)
        × (count_of status summaries
            ≡ length (
                filter
                  (λ row. same_status row.trace.status status)
                  (filter (is_completion caller.tenant_id) rows)))
  unfolding get_metrics_summary verify_internal_token
  get_metrics_summary-count_of caller rows status authentic =
      let completions = filter (is_completion caller.tenant_id) rows in
      (
        map (summary aggregates) (group_by_status completions),
        rw authentic refl,
        entries_of-group_by_status status completions,
        count_of-group_by_status status completions,
      )
