-- ===== src/Prelude/Floats.antt =====
-- Floating-point arithmetic as the programs use it: a type and its operations, with no law.
use mathlib.Core.Bool.{Bool}

pub record FloatOps (F : Type 0) : Type 0 where
  pub zero : F
  pub add : F → F → F
  -- `a > b`, which is false where either is not a number.
  pub gt : F → F → Bool
