-- ===== src/Engine/Exec/Preserves.antt =====
-- What a piece of the executor's code leaves true of the state, whether it returns or raises.
use sutram.Prelude.{Bool, true, false, if◌then◌else◌, Result, ok, err}
use sutram.Engine.Exec.{
  Exn, State, Exec, pure, raise, gets, modify, continue, ◌>>=◌, handle, attempt,
}

pub record Preserves {V F A : Type 0} (P : State V F → Type 0) (m : Exec V F A) : Type 0 where
  pub after : (s : State V F) → P s → P (m s).1

module _ {V F : Type 0} {P : State V F → Type 0} where
  pub Preserves-pure : {A : Type 0} (a : A) → Preserves P (pure {V = V} {F = F} a)
  Preserves-pure a = record { after = λ s p. p }

  pub Preserves-raise : {A : Type 0} (e : Exn F) → Preserves P (raise {V = V} {A = A} e)
  Preserves-raise e = record { after = λ s p. p }

  pub Preserves-modify :
      (f : State V F → State V F) → ((s : State V F) → P s → P (f s)) → Preserves P (modify f)
  Preserves-modify f keep = record { after = keep }

  pub Preserves-continue :
      {A B : Type 0} (r : Result (Exn F) A) (f : A → Exec V F B)
      → ((a : A) → Preserves P (f a))
      → Preserves P (continue r f)
  Preserves-continue (ok a) f keep = keep a
  Preserves-continue (err e) f keep = record { after = λ s p. p }

  pub Preserves-bind :
      {A B : Type 0} (m : Exec V F A) (f : A → Exec V F B)
      → Preserves P m
      → ((a : A) → Preserves P (f a))
      → Preserves P (m >>= f)
  Preserves-bind m f first keep = record {
    after = λ s p. (Preserves-continue (m s).0 f keep).after (m s).1 (first.after s p);
  }

  -- `gets` hands the state itself to what follows.
  pub Preserves-read :
      {A B : Type 0} (g : State V F → A) (f : A → Exec V F B)
      → ((a : A) → Preserves P (f a))
      → Preserves P (gets g >>= f)
  Preserves-read g f keep = record { after = λ s p. (keep (g s)).after s p }

  pub Preserves-if :
      {A : Type 0} (b : Bool) (m n : Exec V F A)
      → Preserves P m
      → Preserves P n
      → Preserves P (if b then m else n)
  Preserves-if true m n keep_m keep_n = keep_m
  Preserves-if false m n keep_m keep_n = keep_n

  pub Preserves-handle :
      {A : Type 0} (r : Result (Exn F) A) (h : Exn F → Exec V F A)
      → ((e : Exn F) → Preserves P (h e))
      → Preserves P (handle r h)
  Preserves-handle (ok a) h keep = record { after = λ s p. p }
  Preserves-handle (err e) h keep = keep e

  pub Preserves-attempt :
      {A : Type 0} (m : Exec V F A) (h : Exn F → Exec V F A)
      → Preserves P m
      → ((e : Exn F) → Preserves P (h e))
      → Preserves P (attempt m h)
  Preserves-attempt m h first keep = record {
    after = λ s p. (Preserves-handle (m s).0 h keep).after (m s).1 (first.after s p);
  }

pub ruleset preserves_rules = (
  Preserves-pure, Preserves-raise, Preserves-bind, Preserves-read, Preserves-if, Preserves-attempt,
)
