-- ===== src/Prelude/Strings/Hex.antt =====
-- `b.hex()` and `bytes.fromhex(s)`, where Python raises ValueError as nothing.
use Prim.Native.Nat.{ℕ, ◌+◌, ◌-◌, ◌*◌, ◌/◌, ◌%◌, ◌<◌}
use mathlib.Core.Path.{◌≡◌, refl}
use mathlib.Core.Bool.{Bool, false, ◌&&◌, ◌||◌}
use mathlib.Core.Option.{Option, none, some}
use mathlib.Core.List.{[], ◌∷◌}
use native.Mathlib.Omega.{arith}
use sutram.Prelude.Lists.{All}
use sutram.Prelude.Tests.{◌==◌, leb, ltb, if◌then◌else◌}
use sutram.Prelude.Strings.{Text}
use sutram.Prelude.Strings.Utf8.{Bytes}

hex_digit : ℕ → ℕ
hex_digit n = if ltb n 10 then 48 + n else 87 + n

unfoldable pub hex : Bytes → Text
unfolding hex_digit
hex [] = []
hex (b ∷ bytes) = hex_digit (b / 16) ∷ hex_digit (b % 16) ∷ hex bytes

-- A digit in lower or upper case.
digit_value : ℕ → Option ℕ
digit_value c =
    if leb b'0' c && leb c b'9'
    then some (c - 48)
    else if leb b'a' c && leb c b'f'
    then some (c - 87)
    else if leb b'A' c && leb c b'F'
    then some (c - 55)
    else none

is_space : ℕ → Bool
is_space c = (c == 32) || (leb 9 c && leb c 13)

abbrev byte : Option ℕ → Option ℕ → Option Bytes → Option Bytes
byte (some high) (some low) (some rest) = some ((16 * high + low) ∷ rest)
byte _ _ _ = none

-- White space may stand between two bytes.
unfoldable pub fromhex : Text → Option Bytes
unfolding digit_value is_space
fromhex [] = some []
fromhex (c ∷ []) = if is_space c then some [] else none
fromhex (c ∷ d ∷ s) =
    let later = fromhex (d ∷ s) in
    let rest = byte (digit_value c) (digit_value d) (fromhex s) in
    if is_space c then later else rest

digit_value-hex_digit : (n : ℕ) → n < 16 → digit_value (hex_digit n) ≡ some n
unfolding digit_value hex_digit
digit_value-hex_digit n h = ground arith

is_space-hex_digit : (n : ℕ) → n < 16 → is_space (hex_digit n) ≡ false
unfolding is_space hex_digit
is_space-hex_digit n h = ground arith

pub fromhex-hex : (bytes : Bytes) → All (λ b. b < 256) bytes → fromhex (hex bytes) ≡ some bytes
unfolding fromhex hex
fromhex-hex [] h = refl
fromhex-hex (b ∷ bytes) h = rw (is_space-hex_digit (b / 16) (omega (arith, h.0))) (
    rw (digit_value-hex_digit (b / 16) (omega (arith, h.0))) (
      rw (digit_value-hex_digit (b % 16) (omega arith))
        (rw (fromhex-hex bytes h.1) (ground arith))))
