-- ===== src/Engine/Cost/Limits.antt =====
-- cost_tracker.py: the limits hold after any sequence of charges, and a refused charge is not kept.
use sutram.Prelude.{List, [], ◌∷◌, Bool, true, false, ◌≡◌, arith, Result, ok, err}
use sutram.Prelude.Floats.{FloatOps}
use sutram.Engine.Cost.{CostTracker, CostLimitExceeded, per_execution, per_day, add}

module _ {F : Type 0} (num : FloatOps F) where
  -- Charges in turn; a refused one is reported and the next is tried.
  unfoldable pub add_all : List F → CostTracker F → CostTracker F
  add_all [] c = c
  add_all (cost ∷ costs) c = add_all costs (add num cost c).1

  pub record IsWithin (c : CostTracker F) : Type 0 where
    pub execution : num.gt c.total c.max_per_execution ≡ false
    pub day : num.gt c.daily_total c.max_per_day ≡ false

  add-IsWithin : (cost : F) (c : CostTracker F) → IsWithin c → IsWithin (add num cost c).1
  unfolding add
  add-IsWithin cost c h = ground arith

  -- From a tracker within its limits, no sequence of charges brings either total over its limit.
  pub add_all-IsWithin :
      (costs : List F) (c : CostTracker F) → IsWithin c → IsWithin (add_all costs c)
  unfolding add_all
  add_all-IsWithin [] c h = h
  add_all-IsWithin (cost ∷ costs) c h =
      add_all-IsWithin costs (add num cost c).1 (add-IsWithin cost c h)

  -- The result of a charge, by an independent account of its three cases.
  abbrev pub Charged :
      F → CostTracker F → Bool → Bool → Result (CostLimitExceeded F) (Unit {0}) × CostTracker F
  Charged cost c true over_day = (err (per_execution (num.add c.total cost)), c)
  Charged cost c false true = (err (per_day (num.add c.daily_total cost)), c)
  Charged cost c false false = (
    ok tt,
    record {
      max_per_execution = c.max_per_execution;
      max_per_day = c.max_per_day;
      total = num.add c.total cost;
      daily_total = num.add c.daily_total cost;
    },
  )

  -- A charge that would breach the execution limit is refused with the new total, one that would
  -- breach only the daily limit with the new daily total, both leaving the tracker as it was; any
  -- other charge is added to both totals.
  pub add-Charged :
      (cost : F) (c : CostTracker F)
      → add num cost c
        ≡ Charged cost c
            (num.gt (num.add c.total cost) c.max_per_execution)
            (num.gt (num.add c.daily_total cost) c.max_per_day)
  unfolding add
  add-Charged cost c = ground arith
