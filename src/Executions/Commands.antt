-- ===== src/Executions/Commands.antt =====
-- executions.py: any sequence of commands.
use sutram.Prelude.{
  List, [], ◌∷◌, Bool, true, false, ◌≡◌, refl, arith, Option, none, some, text_eq, ok, err, ◌∙◌,
  Result, ap, Bool-cases, inl, sym, inr, Option-cases, All, ◌⊎◌,
}
use sutram.Models.{Uuid, ExecutionStatus, paused, pending, running, completed, failed, cancelled}
use sutram.Engine.Exec.{ExecutionRow}
use sutram.Engine.Fsm.Runs.{is_terminal}
use sutram.Engine.Fsm.{transition}
use sutram.Executions.{
  Service, HttpError, pause_execution, resume_execution, cancel_execution, change_execution,
  save_row, find_row, pause_row, resume_row, cancel_row, save_result, on_found, enqueue, is_asked,
  not_found,
}

pub data Command : Type 0 where
  pause resume cancel : Uuid → Uuid → Command

module _ {V F : Type 0} where
  abbrev pub obey : Command → Service V F → Service V F
  obey (pause id tenant_id) s = (pause_execution id tenant_id s).1
  obey (resume id tenant_id) s = (resume_execution id tenant_id s).1
  obey (cancel id tenant_id) s = (cancel_execution id tenant_id s).1

  abbrev pub obey_all : List Command → Service V F → Service V F
  obey_all [] s = s
  obey_all (c ∷ cs) s = obey_all cs (obey c s)

-- The rows of two tables, one by one.
abbrev pub Pairwise : {A : Type 0} → (A → A → Type 0) → List A → List A → Type 0
Pairwise R [] [] = Unit
Pairwise R [] (y ∷ ys) = ⊥
Pairwise R (x ∷ xs) [] = ⊥
Pairwise R (x ∷ xs) (y ∷ ys) = R x y × Pairwise R xs ys

Pairwise-refl :
    {A : Type 0} (R : A → A → Type 0) → ((x : A) → R x x) → (xs : List A) → Pairwise R xs xs
Pairwise-refl R r [] = tt
Pairwise-refl R r (x ∷ xs) = (r x, Pairwise-refl R r xs)

Pairwise-trans :
    {A : Type 0} (R : A → A → Type 0)
    → ((x y z : A) → R x y → R y z → R x z)
    → (xs ys zs : List A) → Pairwise R xs ys
    → Pairwise R ys zs
    → Pairwise R xs zs
Pairwise-trans R t [] [] [] p q = tt
Pairwise-trans R t [] [] (z ∷ zs) p q = q
Pairwise-trans R t [] (y ∷ ys) zs p q = absurd p
Pairwise-trans R t (x ∷ xs) [] zs p q = absurd p
Pairwise-trans R t (x ∷ xs) (y ∷ ys) [] p q = q
Pairwise-trans R t (x ∷ xs) (y ∷ ys) (z ∷ zs) p q =
    (t x y z p.0 q.0, Pairwise-trans R t xs ys zs p.1 q.1)

-- Whom a command belongs to.
abbrev pub tenant_of : Command → Uuid
tenant_of (pause id tenant_id) = tenant_id
tenant_of (resume id tenant_id) = tenant_id
tenant_of (cancel id tenant_id) = tenant_id

abbrev pub is_paused_status : ExecutionStatus → Bool
is_paused_status paused = true
is_paused_status _ = false

transition-resume :
    (status : ExecutionStatus)
    → ((is_paused_status status ≡ true)
        × ((transition (record { status = status }) "resume").0 ≡ ok pending))
      ⊎ ((is_paused_status status ≡ false)
          × ((transition (record { status = status }) "resume").0
              ≡ err (record { status = status; trigger = "resume" })))
unfolding transition
transition-resume paused = inl (refl, refl)
transition-resume pending = inr (refl, refl)
transition-resume running = inr (refl, refl)
transition-resume completed = inr (refl, refl)
transition-resume failed = inr (refl, refl)
transition-resume cancelled = inr (refl, refl)

module _ {V F : Type 0} where
  -- What a command of a tenant may make of a row: it stays the row of its execution and tenant, and
  -- stays as it is if its status is terminal or if it is another tenant's.
  pub record IsLegal (tenant_id : Uuid) (row row' : ExecutionRow V F) : Type 0 where
    pub same_id : row'.id ≡ row.id
    pub same_tenant : row'.tenant_id ≡ row.tenant_id
    pub terminal : is_terminal row.status ≡ true → row' ≡ row
    pub foreign : text_eq row.tenant_id tenant_id ≡ false → row' ≡ row

  IsLegal-refl : (t : Uuid) (row : ExecutionRow V F) → IsLegal t row row
  IsLegal-refl t row = record {
    same_id = refl;
    same_tenant = refl;
    terminal = λ h. refl;
    foreign = λ h. refl;
  }

  IsLegal-trans :
      (t : Uuid) (x y z : ExecutionRow V F) → IsLegal t x y → IsLegal t y z → IsLegal t x z
  IsLegal-trans t x y z p q = record {
    same_id = q.same_id ∙ p.same_id;
    same_tenant = q.same_tenant ∙ p.same_tenant;
    terminal = λ h. q.terminal (ap (λ r. is_terminal r.status) (p.terminal h) ∙ h) ∙ p.terminal h;
    foreign = λ h. q.foreign (ap (λ r. text_eq r.tenant_id t) (p.foreign h) ∙ h) ∙ p.foreign h;
  }

  -- A change of a row that leaves a terminal row alone, and never moves a row.
  abbrev IsFair : (ExecutionRow V F → Result HttpError (ExecutionRow V F)) → Type 0
  IsFair change =
      (row row' : ExecutionRow V F)
      → change row ≡ ok row'
      → (row'.id ≡ row.id) × (row'.tenant_id ≡ row.tenant_id) × (is_terminal row.status ≡ false)

  pause_row-IsFair : IsFair pause_row
  unfolding pause_row transition
  pause_row-IsFair row row' h = (ground (arith, h), ground (arith, h), ground (arith, h))

  resume_row-IsFair : IsFair resume_row
  unfolding resume_row transition
  resume_row-IsFair row row' h = (ground (arith, h), ground (arith, h), ground (arith, h))

  cancel_row-IsFair : IsFair cancel_row
  unfolding cancel_row transition
  cancel_row-IsFair row row' h = (ground (arith, h), ground (arith, h), ground (arith, h))

  save_row-IsLegal :
      (id t : Uuid) (row new : ExecutionRow V F) (rows : List (ExecutionRow V F))
      → find_row id t rows ≡ some row
      → new.id ≡ row.id
      → new.tenant_id ≡ row.tenant_id
      → is_terminal row.status ≡ false
      → Pairwise (IsLegal t) rows (save_row id t new rows)
  save_row-IsLegal id t row new [] h same_id same_tenant live = cc
  save_row-IsLegal id t row new (r ∷ rows) h same_id same_tenant live =
      elim (Bool-cases (is_asked id t r)) [
        | inl e ↦
            (let same : r ≡ row = ground (arith, h, e) in
              rw e (
                record {
                  same_id = same_id ∙ sym (ap (λ x. x.id) same);
                  same_tenant = same_tenant ∙ sym (ap (λ x. x.tenant_id) same);
                  terminal = λ f. (cc (f, live, ap (λ x. is_terminal x.status) same));
                  foreign = λ f. ground (arith, e, f);
                },
                Pairwise-refl (IsLegal t) (IsLegal-refl t) rows,
              ))
        | inr e ↦ rw e (
          IsLegal-refl t r,
          save_row-IsLegal id t row new rows (ground (arith, h, e)) same_id same_tenant live,
        )
      ]

  save_result-IsLegal :
      (id t : Uuid) (row : ExecutionRow V F) (s : Service V F)
      (c : Result HttpError (ExecutionRow V F))
      → find_row id t s.rows ≡ some row
      → ((new : ExecutionRow V F)
          → c ≡ ok new
          → (new.id ≡ row.id) × (new.tenant_id ≡ row.tenant_id) × (is_terminal row.status ≡ false))
      → Pairwise (IsLegal t) s.rows (save_result id t c s).1.rows
  unfolding save_result
  save_result-IsLegal id t row s (err x) e fair = Pairwise-refl (IsLegal t) (IsLegal-refl t) s.rows
  save_result-IsLegal id t row s (ok new) e fair =
      let (same_id, same_tenant, live) = fair new refl in
      save_row-IsLegal id t row new s.rows e same_id same_tenant live

  change-IsLegal :
      (change : ExecutionRow V F → Result HttpError (ExecutionRow V F)) (fair : IsFair change)
      (id t : Uuid) (s : Service V F)
      → Pairwise (IsLegal t) s.rows (change_execution change id t s).1.rows
  unfolding change_execution save_result on_found
  change-IsLegal change fair id t s = elim (Option-cases (find_row id t s.rows)) [
    | inl e ↦ rw e (Pairwise-refl (IsLegal t) (IsLegal-refl t) s.rows)
    | inr (row, e) ↦ rw e (save_result-IsLegal id t row s (change row) e (fair row))
  ]

  rows-enqueue :
      (id : Uuid) (r : Result HttpError (ExecutionRow V F) × Service V F)
      → (enqueue id r).1.rows ≡ r.1.rows
  unfolding enqueue
  rows-enqueue id (err e, s) = refl
  rows-enqueue id (ok row, s) = refl

  obey-IsLegal :
      (c : Command) (s : Service V F) → Pairwise (IsLegal (tenant_of c)) s.rows (obey c s).rows
  unfolding pause_execution cancel_execution resume_execution
  obey-IsLegal (pause id t) s = change-IsLegal pause_row pause_row-IsFair id t s
  obey-IsLegal (cancel id t) s = change-IsLegal cancel_row cancel_row-IsFair id t s
  obey-IsLegal (resume id t) s =
      rw (rows-enqueue id (change_execution resume_row id t s))
        (change-IsLegal resume_row resume_row-IsFair id t s)

  -- Any sequence of commands of one tenant, on any ids: row by row, the table keeps its executions
  -- and their tenants, and neither a row with a terminal status nor a row of another tenant is
  -- changed at all.
  pub obey_all-IsLegal :
      (t : Uuid) (cs : List Command) (s : Service V F)
      → All (λ c. tenant_of c ≡ t) cs
      → Pairwise (IsLegal t) s.rows (obey_all cs s).rows
  obey_all-IsLegal t [] s h = Pairwise-refl (IsLegal t) (IsLegal-refl t) s.rows
  obey_all-IsLegal t (c ∷ cs) s h =
      let first = obey-IsLegal c s in
      Pairwise-trans (IsLegal t) (IsLegal-trans t) s.rows (obey c s).rows
        (obey_all cs (obey c s)).rows (rw h.0 at first) (obey_all-IsLegal t cs (obey c s) h.1)

  abbrev pub is_paused : Option (ExecutionRow V F) → Bool
  is_paused none = false
  is_paused (some row) = is_paused_status row.status

  -- Resuming sends an execution to the workers exactly where the tenant has it and it is PAUSED; in
  -- every other case the queue is as it was, and the answer is an error.
  pub resume_execution-queue :
      (id t : Uuid) (s : Service V F)
      → ((is_paused (find_row id t s.rows) ≡ true)
          × ((resume_execution id t s).1.queue ≡ id ∷ s.queue))
        ⊎ ((is_paused (find_row id t s.rows) ≡ false)
            × (e : HttpError) × (resume_execution id t s ≡ (err e, s)))
  unfolding resume_execution enqueue change_execution save_result on_found resume_row
  resume_execution-queue id t s = elim (Option-cases (find_row id t s.rows)) [
    | inl e ↦ rw e (inr (refl, not_found, refl))
    | inr (row, e) ↦ rw e (elim (transition-resume row.status) [
      | inl (is_p, moved) ↦ rw moved (inl (is_p, refl))
      | inr (not_p, refused) ↦ rw refused (inr (not_p, _, refl))
    ])
  ]
