-- ===== src/Prelude/Strings/Decimal.antt =====
-- Texts that are put together from parts: decimals have one reading, and so have parts of one width.
use Prim.Native.Nat.{ℕ, zero, suc, ◌+◌, ◌-◌, ◌*◌, ◌/◌, ◌<◌}
use mathlib.Core.Path.{◌≡◌, refl, ap, sym, ◌∙◌}
use mathlib.Core.Bool.{◌&&◌}
use mathlib.Core.Logic.{inl, inr}
use mathlib.Core.List.{[], ◌∷◌, ◌++◌, reverse, reverse-reverse}
use native.Mathlib.Omega.{arith}
use sutram.Prelude.Tests.{◌==◌, ltb, Bool-cases, ==_iff}
use sutram.Prelude.Lists.{length}
use sutram.Prelude.Strings.{Text, text_eq, text_eq_iff, text_eq_refl, digits_rev, str_int}

value : Text → ℕ
value [] = 0
value (c ∷ cs) = (c - 48) + 10 * value cs

value-digits_rev : (f n : ℕ) → n < f → value (digits_rev f n) ≡ n
unfolding value digits_rev
value-digits_rev zero n h = elim h [ ]
value-digits_rev (suc f) n h = elim (Bool-cases (ltb n 10)) [
  | inl small ↦ rw small (omega arith)
  | inr large ↦ rw large (ground (arith, value-digits_rev f (n / 10)))
]

str_int-injective : (m n : ℕ) → str_int m ≡ str_int n → m ≡ n
unfolding str_int
str_int-injective m n h =
    let e : digits_rev (suc m) m ≡ digits_rev (suc n) n =
      sym (reverse-reverse (digits_rev (suc m) m))
      ∙ (ap reverse h ∙ reverse-reverse (digits_rev (suc n) n)) in
    omega (
      arith,
      value-digits_rev (suc m) m (omega arith),
      value-digits_rev (suc n) n (omega arith),
      ap value e,
    )

-- `int(s)` of a text of decimal digits reads back what `str` has written.
unfoldable pub read_int : Text → ℕ
unfolding value
read_int t = value (reverse t)

pub read_int-str_int : (n : ℕ) → read_int (str_int n) ≡ n
unfolding read_int str_int
read_int-str_int n =
    ap value (reverse-reverse (digits_rev (suc n) n)) ∙ value-digits_rev (suc n) n (omega arith)

pub text_eq-str_int : (m n : ℕ) → text_eq (str_int m) (str_int n) ≡ (m == n)
text_eq-str_int m n = elim (Bool-cases (text_eq (str_int m) (str_int n))) [
  | inl e ↦ rw e (ground (arith, str_int-injective m n ((text_eq_iff (str_int m) (str_int n)).0 e)))
  | inr e ↦ elim (Bool-cases (m == n)) [
    | inl same ↦ ground (arith, ap str_int ((==_iff m n).0 same), text_eq_refl (str_int n))
    | inr differ ↦ rw (e, differ)
  ]
]

-- Two texts whose first parts have one length are equal exactly where both parts are.
pub text_eq-append :
    (a b s t : Text)
    → length a ≡ length b
    → text_eq (a ++ s) (b ++ t) ≡ (text_eq a b && text_eq s t)
text_eq-append [] [] s t h = refl
text_eq-append [] (c ∷ b) s t h = absurd (omega arith)
text_eq-append (c ∷ a) [] s t h = absurd (omega arith)
text_eq-append (c ∷ a) (d ∷ b) s t h = ground (arith, text_eq-append a b s t)
