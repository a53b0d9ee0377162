-- ===== src/Crypto/RoundTrip.antt =====
-- `symmetric_encrypt_hmac_iv` and `symmetric_decrypt_hmac_iv` of src/crypto/helpers.cpp together.
use steam_min_cpp.Prelude.{
  ℕ, ◌+◌, ◌*◌, ◌/◌, ◌^◌, ◌<◌, ◌≡◌, refl, sym, ◌∙◌, true, List, [], ◌∷◌, ◌++◌, length, take,
  replicate, arith, length-append, length-take, length-replicate, take-append, drop-append,
  take_all, le→not_ltb,
}
use steam_min_cpp.Prelude.Results.{ok}
use steam_min_cpp.Crypto.{
  Cipher, IsCipher, calculate_max_encrypted_length, iv_digest, generate_iv, validate_iv,
  symmetric_encrypt_hmac_iv, check_recovered, recovered_iv, symmetric_decrypt_hmac_iv,
}
use steam_min_cpp.Crypto.Buffers.{max_length, overwrite_all, valid, placed}

module _ (c : Cipher) (law : IsCipher c) (key secret plaintext : List ℕ) (r0 r1 r2 : ℕ)
    (key_size : length key ≡ 32) (bounded : length plaintext < 2 ^ 63) where
  abbrev random : List ℕ
  random = r0 ∷ r1 ∷ r2 ∷ []

  abbrev digest : List ℕ
  digest = c.hmac_sha1 secret (random ++ plaintext)

  abbrev hash : List ℕ
  hash = take 13 digest

  length-hash : length hash ≡ 13
  length-hash =
      omega (arith, length-take 13 digest, law.length-hmac_sha1 secret (random ++ plaintext))

  abbrev iv : List ℕ
  iv = hash ++ random

  length-iv : length iv ≡ 16
  length-iv = omega (arith, length-append hash random, length-hash)

  generated : generate_iv c plaintext (replicate 16 0) secret random ≡ iv
  unfolding generate_iv iv_digest
  generated = rw length-hash refl

  validated : validate_iv c plaintext iv secret ≡ true
  validated = valid c plaintext secret hash random length-hash refl refl

  abbrev sealed_iv : List ℕ
  sealed_iv = c.ecb_encrypt key iv

  length-sealed_iv : length sealed_iv ≡ 16
  length-sealed_iv = law.length-ecb_encrypt key iv key_size length-iv

  abbrev sealed : List ℕ
  sealed = c.cbc_encrypt key iv plaintext

  length-sealed : length sealed ≡ (length plaintext / 16 + 1) * 16
  length-sealed = law.length-cbc_encrypt key iv plaintext key_size length-iv

  encrypted : symmetric_encrypt_hmac_iv c plaintext key secret random ≡ ok (sealed_iv ++ sealed)
  unfolding symmetric_encrypt_hmac_iv
  encrypted = rw generated (
      placed c sealed_iv sealed (replicate (calculate_max_encrypted_length (length plaintext)) 0)
        length-sealed_iv
        (omega (
          arith,
          length-replicate {A = ℕ} (calculate_max_encrypted_length (length plaintext)) 0,
          max_length (length plaintext) bounded,
          length-sealed,
        )))

  recovered : recovered_iv c (sealed_iv ++ sealed) key ≡ iv
  unfolding recovered_iv
  recovered =
      rw
        (
          take-append 16 sealed_iv sealed length-sealed_iv,
          law.ecb_decrypt-ecb_encrypt key iv key_size length-iv,
          take_all 16 iv (omega (arith, length-iv)),
        )
        (overwrite_all iv (replicate 16 0) (omega (arith, length-iv)))

  decrypted : symmetric_decrypt_hmac_iv c (sealed_iv ++ sealed) key secret ≡ ok plaintext
  unfolding symmetric_decrypt_hmac_iv check_recovered
  decrypted =
      rw
        (
          le→not_ltb 16 (length (sealed_iv ++ sealed))
              (omega (arith, length-append sealed_iv sealed, length-sealed_iv)),
          recovered,
          drop-append 16 sealed_iv sealed length-sealed_iv,
          law.cbc_decrypt-cbc_encrypt key iv plaintext key_size length-iv,
          validated,
        )
        refl

-- For a 32-byte key, three random bytes and a plaintext shorter than 2 ^ 63 bytes, encryption fills
-- its output buffer exactly, with 16 bytes and the plaintext's padded to the next block: the result
-- is as long as `calculate_max_encrypted_length` tells, and decryption with the same key and secret
-- gives the plaintext back.
pub symmetric_decrypt-symmetric_encrypt :
    (c : Cipher) (key secret plaintext random : List ℕ)
    → IsCipher c
    → length key ≡ 32
    → length random ≡ 3
    → length plaintext < 2 ^ 63
    → (output : List ℕ) × (symmetric_encrypt_hmac_iv c plaintext key secret random ≡ ok output)
      × (length output ≡ 16 + (length plaintext / 16 + 1) * 16)
      × (length output ≡ calculate_max_encrypted_length (length plaintext))
      × (symmetric_decrypt_hmac_iv c output key secret ≡ ok plaintext)
symmetric_decrypt-symmetric_encrypt c key secret plaintext [] law k r b = absurd (omega arith)
symmetric_decrypt-symmetric_encrypt c key secret plaintext (x ∷ []) law k r b = absurd (omega arith)
symmetric_decrypt-symmetric_encrypt c key secret plaintext (x ∷ y ∷ []) law k r b =
    absurd (omega arith)
symmetric_decrypt-symmetric_encrypt c key secret plaintext (x ∷ y ∷ z ∷ []) law k r b = (
  sealed_iv c law key secret plaintext x y z k b ++ sealed c law key secret plaintext x y z k b,
  encrypted c law key secret plaintext x y z k b,
  size,
  size ∙ sym (max_length (length plaintext) b),
  decrypted c law key secret plaintext x y z k b,
)
  where
    size :
        length (
          sealed_iv c law key secret plaintext x y z k b
          ++ sealed c law key secret plaintext x y z k b)
        ≡ 16 + (length plaintext / 16 + 1) * 16
    size = omega (
      arith,
      length-append (sealed_iv c law key secret plaintext x y z k b)
          (sealed c law key secret plaintext x y z k b),
      length-sealed_iv c law key secret plaintext x y z k b,
      length-sealed c law key secret plaintext x y z k b,
    )
symmetric_decrypt-symmetric_encrypt c key secret plaintext (x ∷ y ∷ z ∷ w ∷ ws) law k r b =
    absurd (omega arith)
