-- ===== src/Observability/Gauges/Balance.antt =====
-- metrics/prometheus.py: what the gauge of active executions counts.
use sutram.Prelude.{
  ℕ, zero, suc, ◌+◌, ◌-◌, List, [], ◌∷◌, true, false, text_eq, ◌&&◌, if◌then◌else◌, leb, ◌≡◌, refl,
  arith, Bool-cases, inl, inr, ap, ◌∙◌,
}
use sutram.Prelude.Slices.{ℤ, pos, negsuc}
use sutram.Models.{Uuid}
use sutram.Observability.Handler.{
  Metric, started_metric, completed_metric, step_metric, searched_metric,
}
use sutram.Observability.Gauges.{inc, dec, is_ended, registry_of}

-- a - b, as an integer.
abbrev sub_ℕ : ℕ → ℕ → ℤ
sub_ℕ a b = if leb b a then pos (a - b) else negsuc (b - a - 1)

-- The integer n - (k + 1), for the cases of the differences above.
inc-negsuc : (a b n : ℕ) → leb b a ≡ false → b - a - 1 ≡ n → inc (negsuc n) ≡ sub_ℕ (a + 1) b
inc-negsuc a b zero h e = ground arith
inc-negsuc a b (suc n) h e = ground arith

inc-sub_ℕ : (a b : ℕ) → inc (sub_ℕ a b) ≡ sub_ℕ (a + 1) b
inc-sub_ℕ a b = elim (Bool-cases (leb b a)) [
  | inl h ↦ rw h (ground arith)
  | inr h ↦ rw h (inc-negsuc a b (b - a - 1) h refl)
]

dec-pos : (a b n : ℕ) → leb b a ≡ true → a - b ≡ n → dec (pos n) ≡ sub_ℕ a (b + 1)
dec-pos a b zero h e = ground arith
dec-pos a b (suc n) h e = ground arith

dec-sub_ℕ : (a b : ℕ) → dec (sub_ℕ a b) ≡ sub_ℕ a (b + 1)
dec-sub_ℕ a b = elim (Bool-cases (leb b a)) [
  | inl h ↦ rw h (dec-pos a b (a - b) h refl)
  | inr h ↦ rw h (ground arith)
]

module _ {F : Type 0} (tenant_id : Uuid) where
  -- The runs of the tenant's executions that have been seen to start, and those that have ended.
  pub starts : List (Metric F) → ℕ
  starts [] = 0
  starts (started_metric t ∷ xs) = if text_eq tenant_id t then starts xs + 1 else starts xs
  starts (completed_metric t status duration_ms cost ∷ xs) = starts xs
  starts (step_metric w s d ∷ xs) = starts xs
  starts (searched_metric l ∷ xs) = starts xs

  pub ends : List (Metric F) → ℕ
  ends [] = 0
  ends (started_metric t ∷ xs) = ends xs
  ends (completed_metric t status duration_ms cost ∷ xs) =
      if text_eq tenant_id t && is_ended status then ends xs + 1 else ends xs
  ends (step_metric w s d ∷ xs) = ends xs
  ends (searched_metric l ∷ xs) = ends xs

  -- The gauge of a tenant is the number of recorded starts less that of recorded ends; it is negative
  -- where there are fewer starts.
  pub active_executions-sub_ℕ :
      (xs : List (Metric F))
      → (registry_of xs).active_executions tenant_id ≡ sub_ℕ (starts xs) (ends xs)
  unfolding registry_of starts ends
  active_executions-sub_ℕ [] = refl
  active_executions-sub_ℕ (started_metric t ∷ xs) = elim (Bool-cases (text_eq tenant_id t)) [
    | inl e ↦ rw e (ap inc (active_executions-sub_ℕ xs) ∙ inc-sub_ℕ (starts xs) (ends xs))
    | inr e ↦ rw e (active_executions-sub_ℕ xs)
  ]
  active_executions-sub_ℕ (completed_metric t status duration_ms cost ∷ xs) =
      elim (Bool-cases (is_ended status)) [
        | inl d ↦ elim (Bool-cases (text_eq tenant_id t)) [
          | inl e ↦
              rw d (rw e (ap dec (active_executions-sub_ℕ xs) ∙ dec-sub_ℕ (starts xs) (ends xs)))
          | inr e ↦ rw d (rw e (active_executions-sub_ℕ xs))
        ]
        | inr d ↦ ground (arith, d, active_executions-sub_ℕ xs)
      ]
  active_executions-sub_ℕ (step_metric w s d ∷ xs) = active_executions-sub_ℕ xs
  active_executions-sub_ℕ (searched_metric l ∷ xs) = active_executions-sub_ℕ xs
