-- ===== src/Webhooks/Crypto.antt =====
-- services/workflow-service/app/webhooks/crypto.py: webhook secrets under AES-GCM. The cipher of the
-- package cryptography is a parameter, and so is what `os.urandom` and `secrets` draw.
pub mod RoundTrip
use sutram.Prelude.{
  ℕ, ◌<◌, List, [], ◌∷◌, ◌++◌, Bool, true, false, Option, none, some, Text, take, drop, length, All,
  ◌==◌, ◌||◌, if◌then◌else◌, Result, ok, err, ◌≡◌, ltb,
}
use sutram.Prelude.Strings.Utf8.{Bytes, encode, decode}
use sutram.Prelude.Strings.Hex.{hex, fromhex}

-- `AESGCM(key).encrypt` and `.decrypt` with no associated data, for keys of 16, 24 or 32 bytes; the
-- latter answers nothing where it raises InvalidTag.
pub record AesGcm : Type 0 where
  pub encrypt : Bytes → Bytes → Bytes → Bytes
  pub decrypt : Bytes → Bytes → Bytes → Option Bytes
  pub decrypt-encrypt : (key nonce b : Bytes) → decrypt key nonce (encrypt key nonce b) ≡ some b
  pub encrypt-All :
      (key nonce b : Bytes) → All (λ x. x < 256) b → All (λ x. x < 256) (encrypt key nonce b)

-- ValueError, of which UnicodeError is one, and InvalidTag.
pub data CryptoError : Type 0 where
  value_error invalid_tag : CryptoError

infixl 5 ◌>>=◌
abbrev pub ◌>>=◌ :
    {A B : Type 0} → Result CryptoError A → (A → Result CryptoError B) → Result CryptoError B
ok a >>= f = f a
err e >>= f = err e

abbrev pub or_raise : {A : Type 0} → CryptoError → Option A → Result CryptoError A
or_raise e none = err e
or_raise e (some a) = ok a

-- `AESGCM(bytes.fromhex(hex_key))`.
abbrev pub is_key : Bytes → Bool
is_key key = (length key == 16) || ((length key == 24) || (length key == 32))

unfoldable pub read_key : Text → Result CryptoError Bytes
read_key hex_key = do
  key ← or_raise value_error (fromhex hex_key)
  if is_key key then ok key else err value_error

-- `secrets.token_hex(32)`, of the 32 bytes drawn.
unfoldable pub generate_webhook_secret : Bytes → Text
generate_webhook_secret drawn = hex drawn

module _ (aes : AesGcm) where
  -- With the nonce drawn, of 12 bytes.
  unfoldable pub encrypt_secret : Bytes → Text → Text → Result CryptoError Text
  unfolding read_key
  encrypt_secret nonce plaintext hex_key = do
    key ← read_key hex_key
    b ← or_raise value_error (encode plaintext)
    ok (hex (nonce ++ aes.encrypt key nonce b))

  -- A nonce of fewer than 8 bytes raises ValueError.
  unfoldable pub decrypt_secret : Text → Text → Result CryptoError Text
  unfolding read_key
  decrypt_secret hex_ciphertext hex_key = do
    key ← read_key hex_key
    raw ← or_raise value_error (fromhex hex_ciphertext)
    b ←
        if ltb (length (take 12 raw)) 8
        then err value_error
        else or_raise invalid_tag (aes.decrypt key (take 12 raw) (drop 12 raw))
    or_raise value_error (decode b)
