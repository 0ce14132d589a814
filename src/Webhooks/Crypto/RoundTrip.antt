-- ===== src/Webhooks/Crypto/RoundTrip.antt =====
-- crypto.py: secrets that are stored come back when a webhook is signed.
use sutram.Prelude.{
  ℕ, ◌<◌, [], ◌∷◌, ◌++◌, none, some, Text, take, drop, length, All, All-append, Result, ok, err,
  ◌≡◌, ◌⊎◌, inl, inr, refl, arith, Option-cases, Result-cases, zero, suc, ap, Bool-cases,
}
use sutram.Prelude.Strings.Utf8.{Bytes, encode, decode-encode, encode-All}
use sutram.Prelude.Strings.Hex.{hex, fromhex, fromhex-hex}
use sutram.Webhooks.Crypto.{
  AesGcm, CryptoError, value_error, read_key, encrypt_secret, decrypt_secret, is_key,
}

-- The first bytes, of a known number, and the others.
take-append : (n : ℕ) (xs ys : Bytes) → length xs ≡ n → take n (xs ++ ys) ≡ xs
take-append zero [] ys h = refl
take-append zero (x ∷ xs) ys h = absurd (omega (arith, h))
take-append (suc n) [] ys h = absurd (omega (arith, h))
take-append (suc n) (x ∷ xs) ys h = ap (◌∷◌ x) (take-append n xs ys (omega (arith, h)))

drop-append : (n : ℕ) (xs ys : Bytes) → length xs ≡ n → drop n (xs ++ ys) ≡ ys
drop-append zero [] ys h = refl
drop-append zero (x ∷ xs) ys h = absurd (omega (arith, h))
drop-append (suc n) [] ys h = absurd (omega (arith, h))
drop-append (suc n) (x ∷ xs) ys h = drop-append n xs ys (omega (arith, h))

read_key_error : (hex_key : Text) (e : CryptoError) → read_key hex_key ≡ err e → e ≡ value_error
unfolding read_key
read_key_error hex_key e = elim (Option-cases (fromhex hex_key)) [
  | inl n ↦ rw n (λ h. cc h)
  | inr (key, n) ↦
      rw n (elim (Bool-cases (is_key key)) [ inl y ↦ rw y (λ h. cc h) | inr y ↦ rw y (λ h. cc h) ])
]

module _ (aes : AesGcm) where
  -- What an encryption is worth: the ciphertext is decrypted to the plaintext, or there is none
  -- since the key is no hexadecimal AES key or the plaintext has no encoding.
  pub data IsSealed (plaintext hex_key : Text) : Result CryptoError Text → Type 0 where
    sealed :
        {c : Text} → decrypt_secret aes c hex_key ≡ ok plaintext → IsSealed plaintext hex_key (ok c)
    refused :
        (read_key hex_key ≡ err value_error) ⊎ (encode plaintext ≡ none)
        → IsSealed plaintext hex_key (err value_error)

  module _ (nonce : Bytes) (twelve : length nonce ≡ 12) (small : All (λ x. x < 256) nonce) where
    decrypt_secret-hex :
        (plaintext hex_key : Text) (key b : Bytes)
        → read_key hex_key ≡ ok key
        → encode plaintext ≡ some b
        → decrypt_secret aes (hex (nonce ++ aes.encrypt key nonce b)) hex_key ≡ ok plaintext
    unfolding decrypt_secret
    decrypt_secret-hex plaintext hex_key key b k e =
        let c = aes.encrypt key nonce b in
        let whole =
          All-append (λ x. x < 256) nonce c small
            (aes.encrypt-All key nonce b (encode-All plaintext b e)) in
        rw k (
          rw (fromhex-hex (nonce ++ c) whole) (
            rw (take-append 12 nonce c twelve) (
              rw (drop-append 12 nonce c twelve) (
                rw twelve
                  (rw (aes.decrypt-encrypt key nonce b) (rw (decode-encode plaintext b e) refl))))))

    -- Whatever the plaintext and the key are, and with any nonce of twelve bytes, a text that is
    -- encrypted is decrypted to the plaintext under the same key; the only refusals are ValueErrors
    -- for a key that is not one or a plaintext that cannot be encoded.
    pub encrypt_secret-IsSealed :
        (plaintext hex_key : Text)
        → IsSealed plaintext hex_key (encrypt_secret aes nonce plaintext hex_key)
    unfolding encrypt_secret
    encrypt_secret-IsSealed plaintext hex_key = elim (Result-cases (read_key hex_key)) [
      | inl (key, k) ↦ elim (Option-cases (encode plaintext)) [
        | inl e ↦ rw k (rw e (refused (inr e)))
        | inr (b, e) ↦ rw k (rw e (sealed (decrypt_secret-hex plaintext hex_key key b k e)))
      ]
      | inr (e, k) ↦
          rw k (let same = read_key_error hex_key e k in rw same (refused (inl (rw same at k))))
    ]
