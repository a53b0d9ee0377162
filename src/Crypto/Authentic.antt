-- ===== src/Crypto/Authentic.antt =====
-- `symmetric_decrypt_hmac_iv` of src/crypto/helpers.cpp on any input.
use steam_min_cpp.Prelude.{
  dec_lt, lt→ltb, String, ℕ, ◌+◌, ◌≤◌, ◌<◌, ◌≡◌, refl, ap, Bool, true, false, Option, none, some,
  List, ◌++◌, length, take, drop, replicate, if◌then◌else◌, arith, length-append, length-drop,
  length-take, le→not_ltb,
}
use steam_min_cpp.Prelude.Results.{ok, throws}
use steam_min_cpp.Crypto.{
  Cipher, IsCipher, iv_digest, validate_iv, check_recovered, recovered_iv,
  symmetric_decrypt_hmac_iv,
}
use steam_min_cpp.Crypto.Buffers.{same_bytes_sound}

accepted :
    (b : Bool) (p plaintext : List ℕ) (message : String)
    → (if b then ok p else throws message) ≡ ok plaintext
    → (b ≡ true) × (p ≡ plaintext)
accepted true p plaintext message e = (refl, cc)
accepted false p plaintext message e = cc

length-recovered_iv : (c : Cipher) (input key : List ℕ) → length (recovered_iv c input key) ≡ 16
unfolding recovered_iv
length-recovered_iv c input key = omega (
  arith,
  length-append front (drop (0 + length front) (replicate 16 0)),
  length-drop {A = ℕ} (0 + length front) (replicate 16 0),
  length-take 16 (c.ecb_decrypt key (take 16 input)),
)
  where
    front : List ℕ
    front = take 16 (c.ecb_decrypt key (take 16 input))

module _ (c : Cipher) (law : IsCipher c) (iv secret plaintext : List ℕ)
    (size : length iv ≡ 16) where
  valid_sound :
      (p : List ℕ)
      → validate_iv c p iv secret ≡ true
      → take 13 (c.hmac_sha1 secret (take 3 (drop 13 iv) ++ p)) ≡ take 13 iv
  unfolding validate_iv iv_digest
  valid_sound p = same_bytes_sound (take 13 digest) (take 13 iv) (
      omega (
        arith,
        length-take 13 digest,
        length-take 13 iv,
        law.length-hmac_sha1 secret (take 3 (drop 13 iv) ++ p),
      ))
    where
      digest : List ℕ
      digest = c.hmac_sha1 secret (take 3 (drop 13 iv) ++ p)

  checked :
      (recovery : Option (List ℕ))
      → check_recovered c recovery iv secret ≡ ok plaintext
      → (recovery ≡ some plaintext)
        × (take 13 (c.hmac_sha1 secret (take 3 (drop 13 iv) ++ plaintext)) ≡ take 13 iv)
  unfolding check_recovered
  checked none e = cc
  checked (some p) e =
      let (accept, same) = accepted (validate_iv c p iv secret) p plaintext _ e in
      (ap some same, rw same at (valid_sound p accept))

-- What decryption accepts, of whatever input, was authenticated: the input has 16 bytes or more, the
-- bytes behind them decrypt to the plaintext, and the first 13 bytes of the decrypted vector are
-- those of the HMAC of its other three and the plaintext.
pub symmetric_decrypt_authentic :
    (c : Cipher) (input key secret plaintext : List ℕ)
    → IsCipher c
    → symmetric_decrypt_hmac_iv c input key secret ≡ ok plaintext
    → let iv = recovered_iv c input key in
      (16 ≤ length input)
      × (c.cbc_decrypt key iv (drop 16 input) ≡ some plaintext)
      × (take 13 (c.hmac_sha1 secret (take 3 (drop 13 iv) ++ plaintext)) ≡ take 13 iv)
unfolding symmetric_decrypt_hmac_iv
symmetric_decrypt_authentic c input key secret plaintext law e = elim (dec_lt (length input) 16) [
  | yes h ↦ absurd (refused h)
  | no h ↦ let (plain, digest) = recovery (omega arith) in (omega arith, plain, digest)
]
  where
    iv : List ℕ
    iv = recovered_iv c input key

    recovery :
        16 ≤ length input
        → (c.cbc_decrypt key iv (drop 16 input) ≡ some plaintext)
          × (take 13 (c.hmac_sha1 secret (take 3 (drop 13 iv) ++ plaintext)) ≡ take 13 iv)
    recovery h =
        checked c law iv secret plaintext (length-recovered_iv c input key)
          (c.cbc_decrypt key iv (drop 16 input)) (rw (le→not_ltb 16 (length input) h) at e)

    refused : length input < 16 → ⊥
    refused h = cc (rw (lt→ltb (length input) 16 h) at e)
