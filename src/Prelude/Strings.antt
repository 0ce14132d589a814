-- ===== src/Prelude/Strings.antt =====
-- Python texts that the program takes apart or puts together, as lists of code points.
pub mod Decimal
pub mod Utf8
pub mod Hex
use Prim.Native.Nat.{ℕ, zero, suc, ◌+◌, ◌/◌, ◌%◌}
use Prim.Native.Char.{code}
use Prim.Native.String.{String}
use mathlib.Core.Path.{◌≡◌, refl}
use mathlib.Core.Logic.{◌↔◌}
use mathlib.Core.Bool.{Bool, true, false, ◌&&◌, ◌||◌}
use mathlib.Core.List.{List, [], ◌∷◌, map, reverse}
use native.Mathlib.Omega.{arith}
use sutram.Prelude.Lists.{All}
use sutram.Prelude.Tests.{◌==◌, leb, ltb, if◌then◌else◌}

abbrev pub Text : Type 0
Text = List ℕ

-- A literal of the source as a text.
abbrev pub codes : String → Text
codes String.[] = []
codes (String.◌∷◌ c s) = code c ∷ codes s

abbrev pub text_eq : Text → Text → Bool
text_eq [] [] = true
text_eq (a ∷ s) (b ∷ t) = (a == b) && text_eq s t
text_eq _ _ = false

text_eq→≡ : (s t : Text) → text_eq s t ≡ true → s ≡ t
text_eq→≡ [] [] h = refl
text_eq→≡ [] (b ∷ t) h = ground arith
text_eq→≡ (a ∷ s) [] h = ground arith
text_eq→≡ (a ∷ s) (b ∷ t) h = ground (arith, text_eq→≡ s t)

pub text_eq_refl : (s : Text) → text_eq s s ≡ true
text_eq_refl [] = refl
text_eq_refl (a ∷ s) = ground (arith, text_eq_refl s)

≡→text_eq : (s t : Text) → s ≡ t → text_eq s t ≡ true
≡→text_eq s t h = ground (arith, h, text_eq_refl s)

pub text_eq_iff : (s t : Text) → (text_eq s t ≡ true) ↔ (s ≡ t)
text_eq_iff s t = (text_eq→≡ s t, ≡→text_eq s t)

-- `s.startswith(prefix)`, `s.endswith(suffix)`, `s.rstrip("/")`, `s.lower()` on ASCII letters.
abbrev pub starts_with : Text → Text → Bool
starts_with s [] = true
starts_with [] (p ∷ ps) = false
starts_with (c ∷ s) (p ∷ ps) = (c == p) && starts_with s ps

abbrev pub ends_with : Text → Text → Bool
ends_with s suffix = starts_with (reverse s) (reverse suffix)

abbrev pub lstrip : ℕ → Text → Text
lstrip c [] = []
lstrip c (d ∷ s) = let rest = lstrip c s in if d == c then rest else d ∷ s

abbrev pub rstrip : ℕ → Text → Text
rstrip c s = reverse (lstrip c (reverse s))

abbrev pub lower_code : ℕ → ℕ
lower_code c = if leb b'A' c && leb c b'Z' then c + 32 else c

abbrev pub lower : Text → Text
lower = map lower_code

-- `str(n)` of a non-negative integer, its digits from the last to the first; the fuel is the
-- number itself, which is at least its count of digits.
unfoldable pub digits_rev : ℕ → ℕ → Text
digits_rev zero n = []
digits_rev (suc f) n =
    let rest = digits_rev f (n / 10) in if ltb n 10 then (48 + n) ∷ [] else (48 + n % 10) ∷ rest

unfoldable pub str_int : ℕ → Text
unfolding digits_rev
str_int n = reverse (digits_rev (suc n) n)

-- A text is absent from a list of texts, and a list holds each text at most once.
abbrev pub IsAbsent : Text → List Text → Type 0
IsAbsent t ts = All (λ n. text_eq t n ≡ false) ts

unfoldable pub IsDistinct : List Text → Type 0
IsDistinct [] = Unit
IsDistinct (n ∷ ns) = IsAbsent n ns × IsDistinct ns

-- `sub in s`.
abbrev pub contains : Text → Text → Bool
contains [] sub = starts_with [] sub
contains (c ∷ s) sub = starts_with (c ∷ s) sub || contains s sub
