-- ===== src/Prelude/Program.antt =====
-- Code with a state that may raise: a state `S` is handed on, and exceptions of `E` are values.

use sutram.Prelude.Outcome.{Result, ok, err}

abbrev pub Program : Type 0 → Type 0 → Type 0 → Type 0
Program E S A = S → Result E A × S

module _ {E S : Type 0} where
  abbrev pub pure : {A : Type 0} → A → Program E S A
  pure a s = (ok a, s)

  abbrev pub raise : {A : Type 0} → E → Program E S A
  raise e s = (err e, s)

  abbrev pub gets : {A : Type 0} → (S → A) → Program E S A
  gets f s = (ok (f s), s)

  abbrev pub modify : (S → S) → Program E S (Unit {0})
  modify f s = (ok tt, f s)

  abbrev pub continue : {A B : Type 0} → Result E A → (A → Program E S B) → Program E S B
  continue (ok a) f s = f a s
  continue (err e) f s = (err e, s)

  infixl 5 ◌>>=◌ ◌>>◌
  abbrev pub ◌>>=◌ : {A B : Type 0} → Program E S A → (A → Program E S B) → Program E S B
  ◌>>=◌ m f s = continue (m s).0 f (m s).1

  abbrev pub ◌>>◌ : {B : Type 0} → Program E S (Unit {0}) → Program E S B → Program E S B
  m >> n = m >>= λ _. n
