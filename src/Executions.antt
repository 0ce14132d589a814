-- ===== src/Executions.antt =====
-- services/workflow-service/app/routes/executions.py: the commands of a tenant on its executions.
-- The table is a list of rows; a query by id and tenant yields at most one row, since ids are
-- unique. The creation of an execution and the stream of its events are in Workflows.
pub mod Commands
use sutram.Prelude.{
  ℕ, String, List, [], ◌∷◌, Bool, true, false, ◌&&◌, Option, none, some, text_eq, if◌then◌else◌,
  Result, ok, err, ltb,
}
use sutram.Models.{Uuid, ExecutionStatus, running}
use sutram.Engine.Fsm.{ExecutionFsm, InvalidTransitionError, transition}
use sutram.Engine.Exec.{ExecutionRow}

-- `HTTPException`, with status code 404 and 409.
pub data HttpError : Type 0 where
  not_found : HttpError
  conflict : InvalidTransitionError → HttpError

-- The table, and the execution ids sent to the workers, the latest first.
pub record Service (V F : Type 0) : Type 0 where
  pub rows : List (ExecutionRow V F)
  pub queue : List Uuid

module _ {V F : Type 0} where
  abbrev pub is_asked : Uuid → Uuid → ExecutionRow V F → Bool
  is_asked execution_id tenant_id row =
      text_eq row.id execution_id && text_eq row.tenant_id tenant_id

  -- `select(...).where(id == execution_id, tenant_id == tenant_id)`, then `scalar_one_or_none()`.
  abbrev pub find_row : Uuid → Uuid → List (ExecutionRow V F) → Option (ExecutionRow V F)
  find_row execution_id tenant_id [] = none
  find_row execution_id tenant_id (row ∷ rows) =
      let rest = find_row execution_id tenant_id rows in
      if is_asked execution_id tenant_id row then some row else rest

  -- The flush of the row that the query found.
  abbrev pub save_row :
      Uuid → Uuid → ExecutionRow V F → List (ExecutionRow V F) → List (ExecutionRow V F)
  save_row execution_id tenant_id new [] = []
  save_row execution_id tenant_id new (row ∷ rows) =
      let rest = save_row execution_id tenant_id new rows in
      if is_asked execution_id tenant_id row then new ∷ rows else row ∷ rest

  abbrev pub found_row : Option (ExecutionRow V F) → Result HttpError (ExecutionRow V F)
  found_row none = err not_found
  found_row (some row) = ok row

  unfoldable pub get_execution : Uuid → Uuid → Service V F → Result HttpError (ExecutionRow V F)
  get_execution execution_id tenant_id s = found_row (find_row execution_id tenant_id s.rows)

  abbrev with_status :
      (ExecutionStatus → ExecutionRow V F → ExecutionRow V F)
      → ExecutionRow V F
      → Result InvalidTransitionError ExecutionStatus
      → Result HttpError (ExecutionRow V F)
  with_status set row (err e) = err (conflict e)
  with_status set row (ok status) = ok (set status row)

  -- A transition on a machine made of the row's status, and what it sets in the row.
  abbrev trigger_row :
      String
      → (ExecutionStatus → ExecutionRow V F → ExecutionRow V F)
      → ExecutionRow V F
      → Result HttpError (ExecutionRow V F)
  trigger_row trigger set row =
      with_status set row (transition (record { status = row.status }) trigger).0

  unfoldable pub pause_row : ExecutionRow V F → Result HttpError (ExecutionRow V F)
  pause_row =
      trigger_row "manual_pause"
        (λ status row. record row { status = status; pause_reason = some "manual_pause" })

  unfoldable pub resume_row : ExecutionRow V F → Result HttpError (ExecutionRow V F)
  resume_row =
      trigger_row "resume" (λ status row. record row { status = status; pause_reason = none })

  unfoldable pub cancel_row : ExecutionRow V F → Result HttpError (ExecutionRow V F)
  cancel_row = trigger_row "cancel" (λ status row. record row { status = status })

  save_result :
      Uuid
      → Uuid
      → Result HttpError (ExecutionRow V F)
      → Service V F
      → Result HttpError (ExecutionRow V F) × Service V F
  save_result execution_id tenant_id (err e) s = (err e, s)
  save_result execution_id tenant_id (ok row) s =
      (ok row, record s { rows = save_row execution_id tenant_id row s.rows })

  on_found :
      (ExecutionRow V F → Result HttpError (ExecutionRow V F))
      → Option (ExecutionRow V F)
      → Result HttpError (ExecutionRow V F)
  on_found change none = err not_found
  on_found change (some row) = change row

  change_execution :
      (ExecutionRow V F → Result HttpError (ExecutionRow V F))
      → Uuid
      → Uuid
      → Service V F
      → Result HttpError (ExecutionRow V F) × Service V F
  unfolding save_result on_found
  change_execution change execution_id tenant_id s =
      save_result execution_id tenant_id (on_found change (find_row execution_id tenant_id s.rows))
        s

  pub pause_execution :
      Uuid → Uuid → Service V F → Result HttpError (ExecutionRow V F) × Service V F
  unfolding change_execution
  pause_execution = change_execution pause_row

  pub cancel_execution :
      Uuid → Uuid → Service V F → Result HttpError (ExecutionRow V F) × Service V F
  unfolding change_execution
  cancel_execution = change_execution cancel_row

  -- A resumed execution is sent to the workers, after the commit.
  enqueue :
      Uuid
      → Result HttpError (ExecutionRow V F) × Service V F
      → Result HttpError (ExecutionRow V F) × Service V F
  enqueue execution_id (err e, s) = (err e, s)
  enqueue execution_id (ok row, s) = (ok row, record s { queue = execution_id ∷ s.queue })

  pub resume_execution :
      Uuid → Uuid → Service V F → Result HttpError (ExecutionRow V F) × Service V F
  unfolding change_execution enqueue
  resume_execution execution_id tenant_id s =
      enqueue execution_id (change_execution resume_row execution_id tenant_id s)
