-- ===== src/Observability/Routes.antt =====
-- services/observability-service/app/routes: reading the traces, the audit log and the metrics. WHERE
-- is a filter; the other clauses of the queries are a parameter. Ids are texts already, and times
-- are not turned into texts.
pub mod Summary
pub mod Groups
use mathlib.Core.List.{Perm}
use sutram.Prelude.{
  ℕ, ◌+◌, ◌≤◌, List, [], ◌∷◌, ◌++◌, map, filter, length, Bool, true, false, ◌&&◌, ◌||◌, Option,
  none, some, Text, codes, text_eq, leb, if◌then◌else◌, min, Result, ok, err, ◌≡◌, take, drop, ◌==◌,
}
use sutram.Prelude.Slices.{ℤ, pos, negsuc}
use sutram.Models.{Uuid, ExecutionStatus}
use sutram.Middleware.InternalAuth.{InternalAuthError, verify_internal_token}
use sutram.Observability.Spans.{ExecutionTrace}
use sutram.Observability.Handler.{AuditLog}

-- The columns that the database fills in beside those of the handler.
pub record TraceRow (F Time : Type 0) : Type 0 where
  pub id : Uuid
  pub trace_id : Uuid
  pub trace : ExecutionTrace F
  pub start_time : Time

pub record AuditRow (Time : Type 0) : Type 0 where
  pub id : Uuid
  pub audit : AuditLog
  pub timestamp : Time

-- ORDER BY a time, ascending and descending, which gives each row once. The order of rows with equal
-- times is the database's and may be another one at each query: every call of a route has its own.
pub record Orders (Time : Type 0) : Type 1 where
  pub ascending : {Row : Type 0} → (Row → Time) → List Row → List Row
  pub descending : {Row : Type 0} → (Row → Time) → List Row → List Row
  pub ascending-Perm :
      {Row : Type 0} (time : Row → Time) (rows : List Row) → Perm (ascending time rows) rows
  pub descending-Perm :
      {Row : Type 0} (time : Row → Time) (rows : List Row) → Perm (descending time rows) rows

-- HTTPException with status 401 and 422, and an error of the database.
pub data RouteError : Type 0 where
  unauthorized : InternalAuthError → RouteError
  unprocessable database_error : RouteError

infixl 5 ◌>>=◌ ◌>>◌
abbrev pub ◌>>=◌ :
    {A B : Type 0} → Result RouteError A → (A → Result RouteError B) → Result RouteError B
ok a >>= f = f a
err e >>= f = err e

abbrev pub ◌>>◌ :
    {B : Type 0} → Result RouteError (Unit {0}) → Result RouteError B → Result RouteError B
m >> n = m >>= λ _. n

abbrev authorized : Uuid → Result InternalAuthError (Unit {0}) → Result RouteError Uuid
authorized tenant_id (ok u) = ok tenant_id
authorized tenant_id (err e) = err (unauthorized e)

-- `_get_tenant`, the same in the three files.
unfoldable pub get_tenant : Text → Text → Uuid → Result RouteError Uuid
get_tenant token expected tenant_id = authorized tenant_id (verify_internal_token token expected)

abbrev pub require : Bool → RouteError → Result RouteError (Unit {0})
require true e = ok tt
require false e = err e

pub record Credentials : Type 0 where
  pub token : Text
  pub expected : Text
  pub tenant_id : Uuid

pub record Page (Time : Type 0) : Type 0 where
  pub records : List (AuditRow Time)
  pub limit : ℤ
  pub offset : ℕ

module _ {F Time : Type 0} (orders : Orders Time) where
  unfoldable pub get_traces :
      Credentials → Uuid → List (TraceRow F Time) → Result RouteError (List (TraceRow F Time))
  unfolding get_tenant
  get_traces caller execution_id rows = do
    tenant_id ← get_tenant caller.token caller.expected caller.tenant_id
    ok (
        orders.ascending (λ row. row.start_time)
          (filter
            (λ row.
              text_eq row.trace.execution_id execution_id && text_eq row.trace.tenant_id tenant_id)
            rows))

module _ {Time : Type 0} (orders : Orders Time) where
  -- `if action`: a missing and an empty one select all.
  abbrev pub is_action : Option Text → AuditRow Time → Bool
  is_action none row = true
  is_action (some []) row = true
  is_action (some (c ∷ action)) row = text_eq row.audit.action (c ∷ action)

  -- The rows of the query before LIMIT and OFFSET.
  unfoldable pub matching : Uuid → Option Text → List (AuditRow Time) → List (AuditRow Time)
  matching tenant_id action rows =
      orders.descending (λ row. row.timestamp)
        (filter (λ row. text_eq row.audit.tenant_id tenant_id && is_action action row) rows)

  -- `Query(default=100, le=1000)`.
  abbrev pub is_limit : ℤ → Bool
  is_limit (pos n) = leb n 1000
  is_limit (negsuc n) = true

  abbrev pub is_offset : ℤ → Bool
  is_offset (pos n) = true
  is_offset (negsuc n) = false

  abbrev pub to_nat : ℤ → ℕ
  to_nat (pos n) = n
  to_nat (negsuc n) = 0

  abbrev pub effective_limit : ℤ → ℕ → ℤ
  effective_limit (pos n) max_page_size = pos (min n max_page_size)
  effective_limit (negsuc n) max_page_size = negsuc n

  -- LIMIT must not be negative.
  abbrev pub limited : ℤ → ℕ → List (AuditRow Time) → Result RouteError (List (AuditRow Time))
  limited (pos n) offset rows = ok (take n (drop offset rows))
  limited (negsuc n) offset rows = err database_error

  unfoldable pub get_audit_logs :
      ℕ → Credentials → ℤ → ℤ → Option Text → List (AuditRow Time) → Result RouteError (Page Time)
  unfolding get_tenant
  get_audit_logs max_page_size caller limit offset action rows = do
    tenant_id ← get_tenant caller.token caller.expected caller.tenant_id
    require (is_limit limit && is_offset offset) unprocessable
    records ←
        limited (effective_limit limit max_page_size) (to_nat offset)
          (matching tenant_id action rows)
    ok (record {
      records = records;
      limit = effective_limit limit max_page_size;
      offset = to_nat offset;
    })
