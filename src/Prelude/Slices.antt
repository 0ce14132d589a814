-- ===== src/Prelude/Slices.antt =====
-- Python integers that may be negative, and a slice `xs[:n]`, which counts from the end then.
use Prim.Native.Nat.{ℕ, suc, ◌-◌, ◌≤◌}
use mathlib.Core.List.{List}
use sutram.Prelude.Lists.{length, take}

pub data ℤ : Type 0 where
  pos : ℕ → ℤ
  negsuc : ℕ → ℤ

abbrev pub slice_to {ℓ} : {A : Type ℓ} → ℤ → List A → List A
slice_to (pos n) xs = take n xs
slice_to (negsuc n) xs = take (length xs - suc n) xs

-- No more than a bound that is not negative.
abbrev pub IsAtMost : ℤ → ℕ → Type 0
IsAtMost (pos k) n = n ≤ k
IsAtMost (negsuc k) n = Unit
