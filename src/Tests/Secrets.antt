-- ===== src/Tests/Secrets.antt =====
-- The round trip of webhook secrets with a toy cipher, which puts a tag before the bytes.
use sutram.Prelude.{[], ◌∷◌, Option, none, some, Text, codes, ok, ◌≡◌, refl, arith}
use sutram.Prelude.Strings.Utf8.{Bytes, encode}
use sutram.Prelude.Strings.Hex.{hex, fromhex}
use sutram.Webhooks.Crypto.{AesGcm, encrypt_secret}
use sutram.Webhooks.Crypto.RoundTrip.{IsSealed, encrypt_secret-IsSealed}

open_toy : Bytes → Bytes → Bytes → Option Bytes
open_toy key nonce [] = none
open_toy key nonce (tag ∷ b) = some b

abbrev toy : AesGcm
unfolding open_toy
toy = record {
  encrypt = λ key nonce b. 170 ∷ b;
  decrypt = open_toy;
  decrypt-encrypt = λ key nonce b. refl;
  encrypt-All = λ key nonce b h. (omega arith, h);
}

abbrev nonce : Bytes
nonce = 1 ∷ 2 ∷ 3 ∷ 4 ∷ 5 ∷ 6 ∷ 7 ∷ 8 ∷ 9 ∷ 10 ∷ 11 ∷ 255 ∷ []

abbrev key : Text
key = codes "00112233445566778899AABBCCDDEEFF 00112233445566778899aabbccddeeff"

encrypt_secret_lem :
    encrypt_secret toy nonce (codes "sé€😀") key
    ≡ ok (codes "0102030405060708090a0bffaa73c3a9e282acf09f9880")
unfolding encrypt_secret hex encode fromhex toy
encrypt_secret_lem = refl

encrypt_secret-IsSealed_example :
    IsSealed toy (codes "sé€😀") key (encrypt_secret toy nonce (codes "sé€😀") key)
encrypt_secret-IsSealed_example =
    encrypt_secret-IsSealed toy nonce (omega arith) (omega arith) (codes "sé€😀") key
