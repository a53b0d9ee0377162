-- ===== src/Crypto.antt =====
-- src/crypto/helpers.cpp and include/steamclient/crypto/helpers.hpp: the channel's symmetric
-- encryption. Crypto++ is a parameter; the bytes of a random generator are arguments.
pub mod Buffers
pub mod RoundTrip
pub mod Authentic
pub mod Manager
use steam_min_cpp.Prelude.{
  ℕ, zero, suc, ◌+◌, ◌-◌, ◌*◌, ◌/◌, ◌%◌, ◌^◌, ◌≤◌, ◌<◌, ◌≡◌, Bool, true, false, Option, none, some,
  List, [], ◌∷◌, ◌++◌, length, take, drop, replicate, ltb, ◌&&◌, ◌==◌, if◌then◌else◌, String,
}
use steam_min_cpp.Prelude.Results.{Result, ok, throws, undefined}
use steam_min_cpp.Stream.{add_size}
use steam_min_cpp.Stream.Bytes.{le_bytes}

-- AES in the modes that are used, HMAC with SHA1, RSA with OAEP and CRC32. `cbc_decrypt` is none
-- where Crypto++ throws `InvalidCiphertext`.
pub record Cipher : Type 0 where
  pub ecb_encrypt : List ℕ → List ℕ → List ℕ
  pub ecb_decrypt : List ℕ → List ℕ → List ℕ
  pub cbc_encrypt : List ℕ → List ℕ → List ℕ → List ℕ
  pub cbc_decrypt : List ℕ → List ℕ → List ℕ → Option (List ℕ)
  pub hmac_sha1 : List ℕ → List ℕ → List ℕ
  pub rsa_oaep_sha1 : List ℕ → List ℕ → List ℕ → List ℕ
  pub crc32 : List ℕ → ℕ

-- The documented behaviour, for a 32-byte key: ECB without padding keeps a block's size, CBC with
-- PKCS padding fills up to the next block, both are inverted by decryption, and a SHA1 digest has 20
-- bytes.
pub record IsCipher (c : Cipher) : Type 0 where
  pub length-ecb_encrypt :
      (key block : List ℕ)
      → length key ≡ 32
      → length block ≡ 16
      → length (c.ecb_encrypt key block) ≡ 16
  pub ecb_decrypt-ecb_encrypt :
      (key block : List ℕ)
      → length key ≡ 32
      → length block ≡ 16
      → c.ecb_decrypt key (c.ecb_encrypt key block) ≡ block
  pub length-cbc_encrypt :
      (key iv plaintext : List ℕ)
      → length key ≡ 32
      → length iv ≡ 16
      → length (c.cbc_encrypt key iv plaintext) ≡ (length plaintext / 16 + 1) * 16
  pub cbc_decrypt-cbc_encrypt :
      (key iv plaintext : List ℕ)
      → length key ≡ 32
      → length iv ≡ 16
      → c.cbc_decrypt key iv (c.cbc_encrypt key iv plaintext) ≡ some plaintext
  pub length-hmac_sha1 : (secret bytes : List ℕ) → length (c.hmac_sha1 secret bytes) ≡ 20

abbrev pub iv_length : ℕ
iv_length = 16

abbrev pub iv_rand_length : ℕ
iv_rand_length = 3

abbrev pub block_size : ℕ
block_size = 16

abbrev pub hash_length : ℕ
hash_length = iv_length - iv_rand_length

unfoldable pub crc_to_vector : ℕ → List ℕ
crc_to_vector crc = le_bytes 4 crc

unfoldable pub calculate_max_encrypted_length : ℕ → ℕ
calculate_max_encrypted_length plaintext_len =
    add_size iv_length (add_size plaintext_len block_size / block_size * block_size)

-- `bytes` copied over a buffer from `offset` on, where they fit.
abbrev pub overwrite : ℕ → List ℕ → List ℕ → List ℕ
overwrite offset bytes buffer = take offset buffer ++ (bytes ++ drop (offset + length bytes) buffer)

-- `memcpy` to `offset` in a buffer.
unfoldable pub memcpy : ℕ → List ℕ → List ℕ → Result (List ℕ)
memcpy offset bytes buffer =
    if ltb (length buffer) (offset + length bytes)
    then undefined
    else ok (overwrite offset bytes buffer)

-- `memcmp` of two arrays of one size is 0.
unfoldable pub same_bytes : List ℕ → List ℕ → Bool
same_bytes [] ys = true
same_bytes (x ∷ xs) [] = false
same_bytes (x ∷ xs) (y ∷ ys) = x == y && same_bytes xs ys

module _ (c : Cipher) where
  -- The digest over the random end of the vector and the plaintext.
  unfoldable pub iv_digest : List ℕ → List ℕ → List ℕ → List ℕ
  iv_digest plaintext iv hmac_secret =
      c.hmac_sha1 hmac_secret (take iv_rand_length (drop hash_length iv) ++ plaintext)

  -- `random` is the block that the generator gives.
  unfoldable pub generate_iv : List ℕ → List ℕ → List ℕ → List ℕ → List ℕ
  unfolding iv_digest
  generate_iv plaintext iv hmac_secret random =
      let drawn = overwrite hash_length random iv in
      overwrite 0 (take hash_length (iv_digest plaintext drawn hmac_secret)) drawn

  unfoldable pub validate_iv : List ℕ → List ℕ → List ℕ → Bool
  unfolding iv_digest
  validate_iv plaintext iv hmac_secret =
      same_bytes (take hash_length (iv_digest plaintext iv hmac_secret)) (take hash_length iv)

  -- The copy of the cipher's bytes and `output.resize`.
  pub place_cipher : List ℕ → List ℕ → Result (List ℕ)
  unfolding memcpy
  place_cipher cipher output = elim (memcpy iv_length cipher output) [
    | ok filled ↦ ok (take (iv_length + length cipher) filled)
    | throws e ↦ throws e
    | undefined ↦ undefined
  ]

  -- An `ArraySink` keeps what fits into its size.
  unfoldable pub symmetric_encrypt_hmac_iv : List ℕ → List ℕ → List ℕ → List ℕ → Result (List ℕ)
  unfolding generate_iv place_cipher
  symmetric_encrypt_hmac_iv plaintext session_key hmac_secret random =
      let iv = generate_iv plaintext (replicate iv_length 0) hmac_secret random in
      let output = replicate (calculate_max_encrypted_length (length plaintext)) 0 in
      place_cipher (c.cbc_encrypt session_key iv plaintext)
        (overwrite 0 (take iv_length (c.ecb_encrypt session_key iv)) output)

  -- What follows the recovery of the plaintext.
  unfoldable pub check_recovered : Option (List ℕ) → List ℕ → List ℕ → Result (List ℕ)
  unfolding validate_iv
  check_recovered none iv hmac_secret = throws "invalid ciphertext"
  check_recovered (some plaintext) iv hmac_secret =
      if validate_iv plaintext iv hmac_secret
      then ok plaintext
      else throws "HMAC from server did not match computed HMAC."

  -- The vector that stands encrypted in front of the input.
  unfoldable pub recovered_iv : List ℕ → List ℕ → List ℕ
  recovered_iv input session_key =
      overwrite 0 (take iv_length (c.ecb_decrypt session_key (take iv_length input)))
        (replicate iv_length 0)

  unfoldable pub symmetric_decrypt_hmac_iv : List ℕ → List ℕ → List ℕ → Result (List ℕ)
  unfolding recovered_iv
  symmetric_decrypt_hmac_iv input session_key hmac_secret =
      if ltb (length input) iv_length
      then throws "Invalid encrypted data"
      else (let iv = recovered_iv input session_key in
          check_recovered (c.cbc_decrypt session_key iv (drop iv_length input)) iv hmac_secret)
