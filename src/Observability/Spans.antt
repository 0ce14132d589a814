-- ===== src/Observability/Spans.antt =====
-- services/observability-service/app/consumer/handler.py: the row of a buffered span. The conversions
-- are parameters that answer nothing where Python raises ValueError.
use sutram.Prelude.{ℕ, Option, none, some, Text, codes}
use sutram.Prelude.Dicts.{Dict, get_item}
use sutram.Models.{Uuid, ExecutionStatus}

infixl 5 ◌>>=◌
abbrev ◌>>=◌ : {A B : Type 0} → Option A → (A → Option B) → Option B
none >>= f = none
some a >>= f = f a

-- The columns of `ExecutionTraceORM`, without its ids and the trace id.
pub record ExecutionTrace (F : Type 0) : Type 0 where
  pub execution_id : Uuid
  pub tenant_id : Uuid
  pub workflow_id : Uuid
  pub event_type : Text
  pub step_name : Option Text
  pub step_index : Option ℕ
  pub duration_ms : Option ℕ
  pub cost_usd : Option F
  pub status : Option ExecutionStatus
  pub error_type : Option Text
  pub error_message : Option Text

-- `uuid.UUID`, `int`, `float`, and the id drawn where a span has none.
pub record Parsers (F : Type 0) : Type 0 where
  pub uuid : Text → Option Uuid
  pub int : Text → Option ℕ
  pub float : Text → Option F
  pub uuid4 : Uuid

-- `int(d[k]) if k in d else None`: `none` where the conversion raises.
abbrev pub convert : {A : Type 0} → (Text → Option A) → Option Text → Option (Option A)
convert parse none = some none
convert parse (some t) = elim (parse t) [ none ↦ none | some a ↦ some (some a) ]

abbrev pub or_text : Text → Option Text → Text
or_text t none = t
or_text t (some u) = u

-- `_write_span_from_dict`: the row, or `none` where a conversion raises.
unfoldable pub span_from_dict :
    {F : Type 0} → Parsers F → Dict → Uuid → Uuid → Option (ExecutionTrace F)
span_from_dict parse span_data tenant_id workflow_id = do
  trace_id ← parse.uuid (or_text parse.uuid4 (get_item (codes "trace_id") span_data))
  execution_id ← parse.uuid (or_text parse.uuid4 (get_item (codes "execution_id") span_data))
  step_index ← convert parse.int (get_item (codes "step_index") span_data)
  duration_ms ← convert parse.int (get_item (codes "duration_ms") span_data)
  cost_usd ← convert parse.float (get_item (codes "cost_usd") span_data)
  some (record {
    execution_id = execution_id;
    tenant_id = tenant_id;
    workflow_id = workflow_id;
    event_type = or_text (codes "unknown") (get_item (codes "event_type") span_data);
    step_name = get_item (codes "step_name") span_data;
    step_index = step_index;
    duration_ms = duration_ms;
    cost_usd = cost_usd;
    status = none;
    error_type = get_item (codes "error_type") span_data;
    error_message = get_item (codes "error_message") span_data;
  })
