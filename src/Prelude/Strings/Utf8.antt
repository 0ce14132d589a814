-- ===== src/Prelude/Strings/Utf8.antt =====
-- `s.encode()` and `b.decode()`: texts as UTF-8, where Python raises UnicodeError as nothing. A byte
-- is a number below 256.
use Prim.Native.Nat.{ℕ, ◌+◌, ◌-◌, ◌*◌, ◌/◌, ◌%◌, ◌<◌}
use mathlib.Core.Path.{◌≡◌, refl}
use mathlib.Core.Bool.{Bool, true, false, ◌&&◌, not}
use mathlib.Core.Option.{Option, none, some}
use mathlib.Core.List.{List, [], ◌∷◌, ◌++◌}
use native.Mathlib.Omega.{arith}
use sutram.Prelude.Lists.{All, All-append}
use mathlib.Core.Path.{◌∙◌}
use mathlib.Core.Logic.{inl, inr}
use sutram.Prelude.Tests.{Bool-cases, Option-cases, leb, ltb, if◌then◌else◌}
use sutram.Prelude.Strings.{Text}

abbrev pub Bytes : Type 0
Bytes = List ℕ

-- A Unicode scalar value: no surrogate.
abbrev pub is_scalar : ℕ → Bool
is_scalar c = ltb c 0x110000 && not (leb 0xd800 c && ltb c 0xe000)

encode_char : ℕ → Bytes
encode_char c =
    if ltb c 0x80
    then c ∷ []
    else if ltb c 0x800
    then (192 + c / 64) ∷ (128 + c % 64) ∷ []
    else if ltb c 0x10000
    then (224 + c / 4096) ∷ (128 + c / 64 % 64) ∷ (128 + c % 64) ∷ []
    else (240 + c / 262144) ∷ (128 + c / 4096 % 64) ∷ (128 + c / 64 % 64) ∷ (128 + c % 64) ∷ []

abbrev prefixed : Bytes → Option Bytes → Option Bytes
prefixed b none = none
prefixed b (some rest) = some (b ++ rest)

unfoldable pub encode : Text → Option Bytes
unfolding encode_char
encode [] = some []
encode (c ∷ s) = let rest = encode s in if is_scalar c then prefixed (encode_char c) rest else none

abbrev is_tail : ℕ → Bool
is_tail b = leb 128 b && ltb b 192

abbrev followed : Bool → ℕ → Option Text → Option Text
followed false c rest = none
followed true c none = none
followed true c (some rest) = some (c ∷ rest)

abbrev two : ℕ → ℕ → ℕ
two a b = (a - 192) * 64 + (b - 128)

abbrev three : ℕ → ℕ → ℕ → ℕ
three a b c = (a - 224) * 4096 + (b - 128) * 64 + (c - 128)

abbrev four : ℕ → ℕ → ℕ → ℕ → ℕ
four a b c d = (a - 240) * 262144 + (b - 128) * 4096 + (c - 128) * 64 + (d - 128)

-- A sequence that is longer than its character needs, or of no scalar value, is refused.
decode4 : ℕ → ℕ → ℕ → ℕ → Option Text → Option Text
decode4 a b c d rest =
    followed
      (leb 240 a
        && ltb a 248
        && is_tail b
        && is_tail c
        && is_tail d
        && leb 0x10000 (four a b c d)
        && is_scalar (four a b c d))
      (four a b c d) rest

decode3 : ℕ → ℕ → ℕ → Option Text → Option Text
decode3 a b c rest =
    followed
      (leb 224 a
        && ltb a 240
        && is_tail b
        && is_tail c
        && leb 0x800 (three a b c)
        && is_scalar (three a b c))
      (three a b c) rest

decode2 : ℕ → ℕ → Option Text → Option Text
decode2 a b rest =
    followed (leb 192 a && ltb a 224 && is_tail b && leb 0x80 (two a b)) (two a b) rest

unfoldable pub decode : Bytes → Option Text
unfolding decode2 decode3 decode4
decode [] = some []
decode (a ∷ []) = followed (ltb a 128) a (some [])
decode (a ∷ b ∷ []) =
    let one = followed true a (decode (b ∷ [])) in
    let rest = decode2 a b (some []) in if ltb a 128 then one else rest
decode (a ∷ b ∷ c ∷ []) =
    let one = followed true a (decode (b ∷ c ∷ [])) in
    let rest2 = decode2 a b (decode (c ∷ [])) in
    if ltb a 128 then one else if ltb a 224 then rest2 else decode3 a b c (some [])
decode (a ∷ b ∷ c ∷ d ∷ s) =
    let one = followed true a (decode (b ∷ c ∷ d ∷ s)) in
    let rest2 = decode2 a b (decode (c ∷ d ∷ s)) in
    let rest3 = decode3 a b c (decode (d ∷ s)) in
    let rest4 = decode4 a b c d (decode s) in
    if ltb a 128 then one else if ltb a 224 then rest2 else if ltb a 240 then rest3 else rest4

decode-cons1 : (a : ℕ) (s : Bytes) → ltb a 128 ≡ true → decode (a ∷ s) ≡ followed true a (decode s)
unfolding decode
decode-cons1 a [] h = rw h refl
decode-cons1 a (b ∷ []) h = rw h refl
decode-cons1 a (b ∷ c ∷ []) h = rw h refl
decode-cons1 a (b ∷ c ∷ d ∷ s) h = rw h refl

decode-cons2 :
    (a b : ℕ) (s : Bytes)
    → ltb a 128 ≡ false
    → ltb a 224 ≡ true
    → decode (a ∷ b ∷ s) ≡ decode2 a b (decode s)
unfolding decode
decode-cons2 a b [] h k = rw h refl
decode-cons2 a b (c ∷ []) h k = rw h (rw k refl)
decode-cons2 a b (c ∷ d ∷ s) h k = rw h (rw k refl)

decode-cons3 :
    (a b c : ℕ) (s : Bytes)
    → ltb a 224 ≡ false
    → ltb a 240 ≡ true
    → decode (a ∷ b ∷ c ∷ s) ≡ decode3 a b c (decode s)
unfolding decode
decode-cons3 a b c [] h k = ground (arith, h, k)
decode-cons3 a b c (d ∷ s) h k = ground (arith, h, k)

decode-cons4 :
    (a b c d : ℕ) (s : Bytes)
    → ltb a 240 ≡ false
    → decode (a ∷ b ∷ c ∷ d ∷ s) ≡ decode4 a b c d (decode s)
unfolding decode
decode-cons4 a b c d s h = ground (arith, h)

module _ (c : ℕ) (s : Bytes) (t : Text) (read : decode s ≡ some t) where
  decode-one : ltb c 0x80 ≡ true → decode (c ∷ s) ≡ some (c ∷ t)
  decode-one h = decode-cons1 c s h ∙ rw read refl

  decode-two :
      ltb c 0x80 ≡ false
      → ltb c 0x800 ≡ true
      → decode ((192 + c / 64) ∷ (128 + c % 64) ∷ s) ≡ some (c ∷ t)
  unfolding decode2
  decode-two h k =
      decode-cons2 (192 + c / 64) (128 + c % 64) s (ground arith) (ground arith)
      ∙ rw read (ground arith)

  decode-three :
      is_scalar c ≡ true
      → ltb c 0x800 ≡ false
      → ltb c 0x10000 ≡ true
      → decode ((224 + c / 4096) ∷ (128 + c / 64 % 64) ∷ (128 + c % 64) ∷ s) ≡ some (c ∷ t)
  unfolding decode3
  decode-three v h k =
      decode-cons3 (224 + c / 4096) (128 + c / 64 % 64) (128 + c % 64) s (ground arith)
        (ground arith)
      ∙ rw read (
          let e : three (224 + c / 4096) (128 + c / 64 % 64) (128 + c % 64) ≡ c = ground arith in
          rw e (ground (arith, v, k)))

  decode-four :
      is_scalar c ≡ true
      → ltb c 0x10000 ≡ false
      → decode
          ((240 + c / 262144) ∷ (128 + c / 4096 % 64) ∷ (128 + c / 64 % 64) ∷ (128 + c % 64) ∷ s)
        ≡ some (c ∷ t)
  unfolding decode4
  decode-four v h =
      decode-cons4 (240 + c / 262144) (128 + c / 4096 % 64) (128 + c / 64 % 64) (128 + c % 64) s
        (ground arith)
      ∙ rw read (
          let e : four (240 + c / 262144) (128 + c / 4096 % 64) (128 + c / 64 % 64) (128 + c % 64)
              ≡ c =
            ground arith in
          rw e (ground (arith, v, h)))

  decode-encode_char : is_scalar c ≡ true → decode (encode_char c ++ s) ≡ some (c ∷ t)
  unfolding encode_char
  decode-encode_char v = elim (Bool-cases (ltb c 0x80)) [
    | inl h ↦ rw h (decode-one h)
    | inr h ↦ elim (Bool-cases (ltb c 0x800)) [
      | inl k ↦ rw h (rw k (decode-two h k))
      | inr k ↦ elim (Bool-cases (ltb c 0x10000)) [
        | inl m ↦ rw h (rw k (rw m (decode-three v k m)))
        | inr m ↦ rw h (rw k (rw m (decode-four v m)))
      ]
    ]
  ]

some_inj : (a b : Bytes) → Path (Option Bytes) (some a) (some b) → a ≡ b
some_inj a b h = cc h

-- Texts that can be encoded are read back.
pub decode-encode : (s : Text) (b : Bytes) → encode s ≡ some b → decode b ≡ some s
unfolding encode decode
decode-encode [] b = λ h. rw (← some_inj [] b h) refl
decode-encode (c ∷ s) b = elim (Bool-cases (is_scalar c)) [
  | inl v ↦ elim (Option-cases (encode s)) [
    | inl e ↦ rw v (rw e (λ h. cc h))
    | inr (rest, e) ↦ rw v (
        rw e (λ h.
          rw (← some_inj (encode_char c ++ rest) b h)
            (decode-encode_char c rest s (decode-encode s rest e) v)))
  ]
  | inr v ↦ rw v (λ h. cc h)
]

encode_char-All : (c : ℕ) → is_scalar c ≡ true → All (λ b. b < 256) (encode_char c)
unfolding encode_char
encode_char-All c v = elim (Bool-cases (ltb c 0x80)) [
  | inl h ↦ rw h (ground arith)
  | inr h ↦ elim (Bool-cases (ltb c 0x800)) [
    | inl k ↦ rw h (rw k (ground arith))
    | inr k ↦ elim (Bool-cases (ltb c 0x10000)) [
      | inl m ↦ rw h (rw k (rw m (ground arith)))
      | inr m ↦ rw h (rw k (rw m (ground arith)))
    ]
  ]
]

pub encode-All : (s : Text) (b : Bytes) → encode s ≡ some b → All (λ x. x < 256) b
unfolding encode
encode-All [] b = λ h. rw (← some_inj [] b h) tt
encode-All (c ∷ s) b = elim (Bool-cases (is_scalar c)) [
  | inl v ↦ elim (Option-cases (encode s)) [
    | inl e ↦ rw v (rw e (λ h. cc h))
    | inr (rest, e) ↦ rw v (
        rw e (λ h. rw (← some_inj (encode_char c ++ rest) b h) (
          All-append (λ x. x < 256) (encode_char c) rest (encode_char-All c v)
            (encode-All s rest e))))
  ]
  | inr v ↦ rw v (λ h. cc h)
]
