-- ===== src/Tests/Reports.antt =====
-- The routes of the observability service on three audit records and two traces.
use sutram.Prelude.{
  ℕ, List, [], ◌∷◌, Bool, none, Text, codes, leb, if◌then◌else◌, ◌≡◌, refl, Bool-cases, inl, inr,
}
use mathlib.Core.List.{Perm}
use mathlib.Core.List.Perm
use sutram.Observability.Routes.{Orders, AuditRow, matching}

insert_by : {Row : Type 0} → (ℕ → ℕ → Bool) → (Row → ℕ) → Row → List Row → List Row
insert_by before time x [] = x ∷ []
insert_by before time x (y ∷ ys) =
    let rest = insert_by before time x ys in
    if before (time x) (time y) then x ∷ y ∷ ys else y ∷ rest

sort_by : {Row : Type 0} → (ℕ → ℕ → Bool) → (Row → ℕ) → List Row → List Row
unfolding insert_by
sort_by before time [] = []
sort_by before time (x ∷ xs) = insert_by before time x (sort_by before time xs)

insert_by-Perm :
    {Row : Type 0} (before : ℕ → ℕ → Bool) (time : Row → ℕ) (x : Row) (xs : List Row)
    → Perm (insert_by before time x xs) (x ∷ xs)
unfolding insert_by
insert_by-Perm before time x [] = Perm.rfl
insert_by-Perm before time x (y ∷ ys) = elim (Bool-cases (before (time x) (time y))) [
  | inl e ↦ rw e Perm.rfl
  | inr e ↦ rw e (Perm.trans (Perm.cons y (insert_by-Perm before time x ys)) (Perm.swap x y ys))
]

sort_by-Perm :
    {Row : Type 0} (before : ℕ → ℕ → Bool) (time : Row → ℕ) (xs : List Row)
    → Perm (sort_by before time xs) xs
unfolding sort_by
sort_by-Perm before time [] = Perm.rfl
sort_by-Perm before time (x ∷ xs) =
    Perm.trans (insert_by-Perm before time x (sort_by before time xs))
      (Perm.cons x (sort_by-Perm before time xs))

abbrev orders : Orders ℕ
orders = record {
  ascending = sort_by leb;
  descending = sort_by (λ a b. leb b a);
  ascending-Perm = sort_by-Perm leb;
  descending-Perm = sort_by-Perm (λ a b. leb b a);
}

abbrev audit : Text → ℕ → AuditRow ℕ
audit tenant_id time = record {
  id = codes "1";
  audit = record {
    tenant_id = tenant_id;
    action = codes "execution.started";
    resource_id = codes "2";
  };
  timestamp = time;
}

abbrev audits : List (AuditRow ℕ)
audits = audit (codes "7a") 5 ∷ audit (codes "7b") 6 ∷ audit (codes "7a") 9 ∷ []

matching_lem :
    matching orders (codes "7a") none audits ≡ audit (codes "7a") 9 ∷ audit (codes "7a") 5 ∷ []
unfolding matching sort_by
matching_lem = refl
