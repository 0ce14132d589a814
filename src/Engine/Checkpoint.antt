-- ===== src/Engine/Checkpoint.antt =====
-- services/workflow-service/app/engine/checkpoint.py: the checkpoints of an execution. The session
-- is behind an interface: what a query answers is a parameter, with its documented law.
use sutram.Prelude.{ℕ, String, List, Bool, true, false, ◌≡◌, ◌≤◌, Option, none, some, text_eq, All}
use sutram.Models.{Uuid, StepConfig}
use mathlib.Core.List.{Memᴰ}

pub record Checkpoint (V : Type 0) : Type 0 where
  pub execution_id : Uuid
  pub tenant_id : Uuid
  pub step_name : String
  pub step_index : ℕ
  pub variables : V
  pub schema_version : ℕ

-- `select(Row).where(test).order_by(key.desc()).limit(1)`, then `scalar_one_or_none()`, on the
-- rows that a table holds.
pub record LatestQuery (Row : Type 0) : Type 0 where
  pub first_desc : (Row → Bool) → (Row → ℕ) → List Row → Option Row
  pub first_desc_none :
      (test : Row → Bool) (key : Row → ℕ) (rows : List Row)
      → first_desc test key rows ≡ none
      → All (λ r. test r ≡ false) rows
  pub first_desc_some :
      (test : Row → Bool) (key : Row → ℕ) (rows : List Row) (r : Row)
      → first_desc test key rows ≡ some r
      → Memᴰ r rows × (test r ≡ true) × All (λ x. test x ≡ true → key x ≤ key r) rows

unfoldable pub should_checkpoint : StepConfig → Bool
should_checkpoint step = step.checkpoint_before

module _ {V : Type 0} where
  -- The row that `write` adds to the session.
  unfoldable pub write : Uuid → Uuid → String → ℕ → V → Checkpoint V
  write execution_id tenant_id step_name step_index variables = record {
    execution_id = execution_id;
    tenant_id = tenant_id;
    step_name = step_name;
    step_index = step_index;
    variables = variables;
    schema_version = 1;
  }

  unfoldable pub get_latest :
      LatestQuery (Checkpoint V) → List (Checkpoint V) → Uuid → Option (Checkpoint V)
  get_latest query rows execution_id =
      query.first_desc (λ c. text_eq c.execution_id execution_id) (λ c. c.step_index) rows
