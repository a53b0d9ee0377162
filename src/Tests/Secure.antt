-- ===== src/Tests/Secure.antt =====
-- The channel's encryption and handshake with a toy cipher that keeps the laws.
use steam_min_cpp.Prelude.{
  ℕ, ◌+◌, ◌-◌, ◌*◌, ◌/◌, ◌%◌, ◌≤◌, ◌≡◌, refl, ap, ◌∙◌, Option, none, some, List, [], ◌∷◌, ◌++◌,
  length, take, drop, replicate, arith, length-append, length-replicate, take-append,
}
use steam_min_cpp.Prelude.Results.{ok}
use steam_min_cpp.Crypto.{
  check_recovered, same_bytes, Cipher, IsCipher, calculate_max_encrypted_length,
  symmetric_encrypt_hmac_iv, symmetric_decrypt_hmac_iv, recovered_iv,
}
use steam_min_cpp.Crypto.RoundTrip.{symmetric_decrypt-symmetric_encrypt}
use steam_min_cpp.Crypto.Authentic.{symmetric_decrypt_authentic}

-- The number of padding bytes.
abbrev padding : List ℕ → ℕ
padding plaintext = 16 - length plaintext % 16

-- The padding's number in front, and zeros behind for the rest of it.
abbrev pad : List ℕ → List ℕ
pad plaintext = padding plaintext ∷ plaintext ++ replicate (padding plaintext - 1) 0

abbrev unpad : List ℕ → Option (List ℕ)
unpad [] = none
unpad (k ∷ bytes) = some (take (length bytes + 1 - k) bytes)

abbrev pub toy_cipher : Cipher
toy_cipher = record {
  ecb_encrypt = λ key block. block;
  ecb_decrypt = λ key block. block;
  cbc_encrypt = λ key iv plaintext. pad plaintext;
  cbc_decrypt = λ key iv cipher. unpad cipher;
  hmac_sha1 = λ secret bytes. replicate 20 (length bytes % 256);
  rsa_oaep_sha1 = λ key plaintext random. plaintext;
  crc32 = length;
}

length-pad : (plaintext : List ℕ) → length (pad plaintext) ≡ (length plaintext / 16 + 1) * 16
length-pad plaintext = omega (
  arith,
  length-append plaintext (replicate (padding plaintext - 1) 0),
  length-replicate {A = ℕ} (padding plaintext - 1) 0,
)

unpad-pad : (plaintext : List ℕ) → unpad (pad plaintext) ≡ some plaintext
unpad-pad plaintext = ap some (
    ap (λ (n : ℕ). take n (plaintext ++ zeros)) count
    ∙ take-append (length plaintext) plaintext zeros refl)
  where
    zeros : List ℕ
    zeros = replicate (padding plaintext - 1) 0

    count : length (plaintext ++ zeros) + 1 - padding plaintext ≡ length plaintext
    count =
        omega
          (arith, length-append plaintext zeros, length-replicate {A = ℕ} (padding plaintext - 1) 0)

pub toy_cipher-IsCipher : IsCipher toy_cipher
toy_cipher-IsCipher = record {
  length-ecb_encrypt = λ key block k b. b;
  ecb_decrypt-ecb_encrypt = λ key block k b. refl;
  length-cbc_encrypt = λ key iv plaintext k i. length-pad plaintext;
  cbc_decrypt-cbc_encrypt = λ key iv plaintext k i. unpad-pad plaintext;
  length-hmac_sha1 = λ secret bytes. length-replicate 20 (length bytes % 256);
}

abbrev pub toy_key : List ℕ
toy_key = replicate 32 7

abbrev toy_secret : List ℕ
toy_secret = take 16 toy_key

abbrev toy_output : List ℕ
toy_output = replicate 13 5 ++ (1 ∷ 2 ∷ 3 ∷ pad (8 ∷ 9 ∷ []))

symmetric_decrypt-symmetric_encrypt_example :
    (output : List ℕ) × (symmetric_encrypt_hmac_iv toy_cipher
        (8 ∷ 9 ∷ [])
        toy_key
        toy_secret
        (1 ∷ 2 ∷ 3 ∷ [])
      ≡ ok output)
    × (length output ≡ 32)
    × (length output ≡ calculate_max_encrypted_length 2)
    × (symmetric_decrypt_hmac_iv toy_cipher output toy_key toy_secret ≡ ok (8 ∷ 9 ∷ []))
symmetric_decrypt-symmetric_encrypt_example =
    symmetric_decrypt-symmetric_encrypt toy_cipher toy_key toy_secret (8 ∷ 9 ∷ []) (1 ∷ 2 ∷ 3 ∷ [])
      toy_cipher-IsCipher refl refl (omega arith)

toy_decryption :
    symmetric_decrypt_hmac_iv toy_cipher toy_output toy_key toy_secret ≡ ok (8 ∷ 9 ∷ [])
unfolding symmetric_decrypt_hmac_iv recovered_iv check_recovered same_bytes
toy_decryption = refl

symmetric_decrypt_authentic_example :
    let iv = recovered_iv toy_cipher toy_output toy_key in
    (16 ≤ length toy_output)
    × (unpad (drop 16 toy_output) ≡ some (8 ∷ 9 ∷ []))
    × (take 13 (replicate 20 (length (take 3 (drop 13 iv) ++ (8 ∷ 9 ∷ [])) % 256)) ≡ take 13 iv)
symmetric_decrypt_authentic_example =
    symmetric_decrypt_authentic toy_cipher toy_output toy_key toy_secret (8 ∷ 9 ∷ [])
      toy_cipher-IsCipher toy_decryption
