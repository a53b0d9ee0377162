-- ===== src/Crypto/Buffers.antt =====
-- The buffers of the channel's encryption: their sizes, copies and comparisons.
use steam_min_cpp.Prelude.{
  ℕ, ◌+◌, ◌*◌, ◌/◌, ◌^◌, ◌≤◌, ◌<◌, ◌≡◌, refl, ap, ◌∙◌, true, List, [], ◌∷◌, ◌++◌, length, take,
  drop, arith, length-append, length-drop, take-append, drop-append, take_all, drop_all, le→not_ltb,
  append-nil,
}
use steam_min_cpp.Prelude.Results.{ok}
use steam_min_cpp.Crypto.{
  Cipher, calculate_max_encrypted_length, memcpy, overwrite, same_bytes, iv_digest, validate_iv,
  place_cipher,
}

pub max_length : (n : ℕ) → n < 2 ^ 63 → calculate_max_encrypted_length n ≡ 16 + (n / 16 + 1) * 16
unfolding calculate_max_encrypted_length
max_length n h = omega arith

-- Sixteen bytes over a buffer of sixteen.
pub overwrite_all :
    (bytes buffer : List ℕ) → length buffer ≤ length bytes → overwrite 0 bytes buffer ≡ bytes
overwrite_all bytes buffer h =
    rw (drop_all (0 + length bytes) buffer (omega arith)) (append-nil bytes)

pub same_bytes_sound : (xs ys : List ℕ) → length xs ≡ length ys → same_bytes xs ys ≡ true → xs ≡ ys
unfolding same_bytes
same_bytes_sound [] [] h e = refl
same_bytes_sound [] (y ∷ ys) h e = absurd (omega arith)
same_bytes_sound (x ∷ xs) [] h e = absurd (omega arith)
same_bytes_sound (x ∷ xs) (y ∷ ys) h e = ground (arith, same_bytes_sound xs ys)

pub same_bytes_refl : (xs : List ℕ) → same_bytes xs xs ≡ true
unfolding same_bytes
same_bytes_refl [] = refl
same_bytes_refl (x ∷ xs) = ground (arith, same_bytes_refl xs)

-- A vector that is made of the digest's front and the random end is valid.
pub valid :
    (c : Cipher) (plaintext secret hash random : List ℕ)
    → length hash ≡ 13
    → length random ≡ 3
    → take 13 (c.hmac_sha1 secret (random ++ plaintext)) ≡ hash
    → validate_iv c plaintext (hash ++ random) secret ≡ true
unfolding validate_iv iv_digest
valid c plaintext secret hash random h r e =
    ap (λ (t : List ℕ). same_bytes (take 13 (c.hmac_sha1 secret (take 3 t ++ plaintext))) front)
      (drop-append 13 hash random h)
    ∙ ap (λ (t : List ℕ). same_bytes (take 13 (c.hmac_sha1 secret (t ++ plaintext))) front)
        (take_all 3 random (omega arith))
    ∙ ap (λ (t : List ℕ). same_bytes t front) e
    ∙ ap (λ (t : List ℕ). same_bytes hash t) (take-append 13 hash random h)
    ∙ same_bytes_refl hash
  where
    front : List ℕ
    front = take 13 (hash ++ random)

-- What the copy leaves, in a buffer that has room for it.
pub placed_of :
    (c : Cipher) (cipher buffer : List ℕ)
    → 16 + length cipher ≤ length buffer
    → place_cipher c cipher buffer ≡ ok (take (16 + length cipher) (overwrite 16 cipher buffer))
unfolding place_cipher memcpy
placed_of c cipher buffer h =
    rw (le→not_ltb (16 + length cipher) (length buffer) h, place_cipher) refl

-- The sealed vector and the cipher's bytes fill an output buffer of their size.
pub placed :
    (c : Cipher) (front cipher output : List ℕ)
    → length front ≡ 16
    → length output ≡ 16 + length cipher
    → place_cipher c cipher (overwrite 0 (take 16 front) output) ≡ ok (front ++ cipher)
placed c front cipher output f o =
    ap (λ (t : List ℕ). place_cipher c cipher (overwrite 0 t output))
      (take_all 16 front (omega arith))
    ∙ placed_of c cipher start (omega (arith, start_size))
    ∙ ap (λ (t : List ℕ). ok (take (16 + length cipher) t)) filled
    ∙ ap ok (
        take_all (16 + length cipher) (front ++ cipher) (omega (arith, length-append front cipher)))
  where
    left : List ℕ
    left = drop (0 + length front) output

    start : List ℕ
    start = front ++ left

    start_size : length start ≡ 16 + length cipher
    start_size = omega (arith, length-append front left, length-drop (0 + length front) output)

    filled : overwrite 16 cipher start ≡ front ++ cipher
    filled =
        ap (λ (t : List ℕ). t ++ (cipher ++ drop (16 + length cipher) start))
          (take-append 16 front left f)
        ∙ ap (λ (t : List ℕ). front ++ (cipher ++ t))
            (drop_all (16 + length cipher) start (omega (arith, start_size)))
        ∙ ap (λ (t : List ℕ). front ++ t) (append-nil cipher)
