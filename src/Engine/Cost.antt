-- ===== src/Engine/Cost.antt =====
-- services/workflow-service/app/engine/cost_tracker.py: the accumulated cost and its two limits.
-- The text of the error message is left out.
pub mod Limits
use sutram.Prelude.{Bool, true, false, if◌then◌else◌, Result, ok, err}
use sutram.Prelude.Floats.{FloatOps}

pub record CostTracker (F : Type 0) : Type 0 where
  pub max_per_execution : F
  pub max_per_day : F
  pub total : F
  pub daily_total : F

-- Which of the two limits the error names, with the total that breaches it.
pub data CostLimitExceeded (F : Type 0) : Type 0 where
  per_execution : F → CostLimitExceeded F
  per_day : F → CostLimitExceeded F

module _ {F : Type 0} (num : FloatOps F) where
  unfoldable pub new_tracker : F → F → CostTracker F
  new_tracker max_per_execution max_per_day = record {
    max_per_execution = max_per_execution;
    max_per_day = max_per_day;
    total = num.zero;
    daily_total = num.zero;
  }

  unfoldable pub set_daily_total : F → CostTracker F → CostTracker F
  set_daily_total daily c = record c { daily_total = daily }

  unfoldable pub add : F → CostTracker F → Result (CostLimitExceeded F) (Unit {0}) × CostTracker F
  add cost c =
      let new_total = num.add c.total cost in
      let new_daily = num.add c.daily_total cost in
      if num.gt new_total c.max_per_execution
      then (err (per_execution new_total), c)
      else if num.gt new_daily c.max_per_day
      then (err (per_day new_daily), c)
      else (ok tt, record c { total = new_total; daily_total = new_daily })
