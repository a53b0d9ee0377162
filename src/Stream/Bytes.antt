-- ===== src/Stream/Bytes.antt =====
-- The loops of `Stream::Write` and `Stream::Read` against the little-endian numerals they mean.
use native.Mathlib.Nat.{div-div-eq-div-mul, pow-succ'}
use native.Mathlib.Numerals.{towards_suc}
use steam_min_cpp.Prelude.{
  ℕ, zero, suc, ◌+◌, ◌*◌, ◌/◌, ◌%◌, ◌^◌, ◌<◌, bit_or, ◌≡◌, refl, ap, sym, ◌∙◌, List, [], ◌∷◌, ◌++◌,
  length, get_or, All, append_assoc, append-nil, arith, length-append,
}
use steam_min_cpp.Prelude.Bits.{bit_or_field}
use steam_min_cpp.Stream.{write_loop, read_loop}

abbrev pub IsByte : ℕ → Type 0
IsByte b = b < 256

-- The `n` bytes of `v`, lowest first.
unfoldable pub le_bytes : ℕ → ℕ → List ℕ
le_bytes zero v = []
le_bytes (suc n) v = v % 256 ∷ le_bytes n (v / 256)

-- The number that bytes spell, lowest first.
unfoldable pub le_value : List ℕ → ℕ
le_value [] = 0
le_value (b ∷ bs) = b + le_value bs * 256

pub length-le_bytes : (n v : ℕ) → length (le_bytes n v) ≡ n
unfolding le_bytes
length-le_bytes zero v = refl
length-le_bytes (suc n) v = ap suc (length-le_bytes n (v / 256))

pub le_bytes-IsByte : (n v : ℕ) → All IsByte (le_bytes n v)
unfolding le_bytes
le_bytes-IsByte zero v = tt
le_bytes-IsByte (suc n) v = (omega arith, le_bytes-IsByte n (v / 256))

pub le_value-le_bytes : (n v : ℕ) → v < 256 ^ n → le_value (le_bytes n v) ≡ v
unfolding le_bytes le_value
le_value-le_bytes zero v h = omega arith
le_value-le_bytes (suc n) v h = ground (arith, pow-succ' 256 n, le_value-le_bytes n (v / 256))

pub le_bytes-le_value : (bs : List ℕ) → All IsByte bs → le_bytes (length bs) (le_value bs) ≡ bs
unfolding le_bytes le_value
le_bytes-le_value [] h = refl
le_bytes-le_value (b ∷ bs) (hb, hs) = ground (arith, le_bytes-le_value bs hs)

next_shift : (i : ℕ) → 2 ^ (8 * (i + 1)) ≡ 2 ^ (8 * i) * 256
next_shift i = rw (eight i) (simp towards_suc (omega arith))
  where
    eight : (i : ℕ) → 8 * (i + 1) ≡ 8 * i + 8
    eight i = omega arith

-- The writing loop appends the bytes of what is left of the value.
pub write_loop-le_bytes :
    (left i v : ℕ) (buffer : List ℕ)
    → write_loop left i v buffer ≡ buffer ++ le_bytes left (v / 2 ^ (8 * i))
unfolding write_loop le_bytes
write_loop-le_bytes zero i v buffer = sym (append-nil buffer)
write_loop-le_bytes (suc left) i v buffer =
    write_loop-le_bytes left (i + 1) v (buffer ++ (v / 2 ^ (8 * i) % 256 ∷ []))
    ∙ rw (append_assoc, next_shift, ← div-div-eq-div-mul) refl

get_or-length_append : (xs ys : List ℕ) (y : ℕ) → get_or (xs ++ (y ∷ ys)) (length xs) 0 ≡ y
get_or-length_append [] ys y = refl
get_or-length_append (x ∷ xs) ys y = get_or-length_append xs ys y

module _ (v b : ℕ) (done r : List ℕ) (below : v < 2 ^ (8 * length done)) where
  read_step :
      (left : ℕ)
      → read_loop (suc left) (length done) v (done ++ (b ∷ r))
        ≡ read_loop left (length done + 1) (v + b * 2 ^ (8 * length done)) (done ++ (b ∷ r))
  unfolding read_loop
  read_step left = ap (λ t. read_loop left (length done + 1) t (done ++ (b ∷ r))) joined
    where
      joined :
          bit_or v (get_or (done ++ (b ∷ r)) (length done) 0 * 2 ^ (8 * length done))
          ≡ v + b * 2 ^ (8 * length done)
      joined = rw (get_or-length_append done r b) (bit_or_field (8 * length done) v b below)

  still_below : b < 256 → v + b * 2 ^ (8 * length done) < 2 ^ (8 * (length done + 1))
  still_below h = rw next_shift (grind arith)

-- From the loop behind `b` to the loop at `b`.
read_behind :
    (v b : ℕ) (done bs rest : List ℕ)
    → b < 256
    → v < 2 ^ (8 * length done)
    → (v + b * 2 ^ (8 * length done) < 2 ^ (8 * length (done ++ (b ∷ [])))
        → read_loop
            (length bs)
            (length (done ++ (b ∷ [])))
            (v + b * 2 ^ (8 * length done))
            ((done ++ (b ∷ [])) ++ (bs ++ rest))
          ≡ v + b * 2 ^ (8 * length done) + le_value bs * 2 ^ (8 * length (done ++ (b ∷ []))))
    → read_loop (suc (length bs)) (length done) v (done ++ (b ∷ (bs ++ rest)))
      ≡ v + (b + le_value bs * 256) * 2 ^ (8 * length done)
read_behind v b done bs rest hb hv behind =
    read_step v b done (bs ++ rest) hv (length bs)
    ∙ (rw (longer, append_assoc, next_shift) at
        (behind (rw longer (still_below v b done (bs ++ rest) hv hb))))
    ∙ omega arith
  where
    longer : length (done ++ (b ∷ [])) ≡ length done + 1
    longer = omega (arith, length-append done (b ∷ []))

-- The reading loop joins the bytes that are left above what it has read.
pub read_loop-le_value :
    (bytes : List ℕ) (v : ℕ) (done rest : List ℕ)
    → All IsByte bytes
    → v < 2 ^ (8 * length done)
    → read_loop (length bytes) (length done) v (done ++ (bytes ++ rest))
      ≡ v + le_value bytes * 2 ^ (8 * length done)
unfolding le_value
read_loop-le_value [] v done rest hb hv = unfold read_loop in omega arith
read_loop-le_value (b ∷ bs) v done rest (b_IsByte, hb) hv =
    read_behind v b done bs rest b_IsByte hv
      (read_loop-le_value bs (v + b * 2 ^ (8 * length done)) (done ++ (b ∷ [])) rest hb)
