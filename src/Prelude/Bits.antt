-- ===== src/Prelude/Bits.antt =====
-- Bit operations on numbers of any width as arithmetic: masks, shifts and joins of fields.
use Prim.Native.Nat.{
  ℕ, zero, suc, ◌+◌, ◌*◌, ◌/◌, ◌%◌, ◌^◌, ◌-◌, ◌≤◌, ◌<◌, min, max, bit_and, bit_or, digits,
  bit_and-bitwise, bit_or-bitwise,
}
use mathlib.Core.Path.{◌≡◌, refl, ap}
use native.Mathlib.Omega.{arith}
use native.Mathlib.Nat.{pow-suc, one-le-pow}

-- The digits of a bitwise operation do not depend on the number of rounds, if there are enough.
module _ (over_zero : ℕ → ℕ) (join : ℕ → ℕ → ℕ) where
  abbrev rounds : ℕ → ℕ → ℕ → ℕ
  rounds = digits over_zero join

  rounds_enough :
      (left right many few : ℕ)
      → left ≤ few
      → few ≤ many
      → rounds many left right ≡ rounds few left right
  rounds_enough zero right zero zero h more = refl
  rounds_enough zero right (suc many) zero h more = refl
  rounds_enough zero right (suc many) (suc few) h more = refl
  rounds_enough left right zero (suc few) h more = absurd (omega arith)
  rounds_enough (suc left) right many zero h more = absurd (omega arith)
  rounds_enough (suc left) right (suc many) (suc few) h more =
      omega (arith, rounds_enough (suc left / 2) (right / 2) many few (omega arith) (omega arith))

  half_rounds :
      (left right : ℕ)
      → rounds left (suc left / 2) right ≡ rounds (suc left / 2) (suc left / 2) right
  half_rounds left right =
      rounds_enough (suc left / 2) right left (suc left / 2) (omega arith) (omega arith)

  -- An operation that these rounds define, by its lowest digits and the rest.
  halved :
      (op : ℕ → ℕ → ℕ)
      → ((left right : ℕ) → op left right ≡ rounds left left right)
      → ((right : ℕ) → over_zero right ≡ over_zero (right / 2) * 2 + join 0 (right % 2))
      → (left right : ℕ)
      → op left right ≡ op (left / 2) (right / 2) * 2 + join (left % 2) (right % 2)
  halved op law at_zero zero right = omega (arith, law 0 right, law 0 (right / 2), at_zero right)
  halved op law at_zero (suc left) right =
      omega
        (arith, law (suc left) right, half_rounds left (right / 2), law (suc left / 2) (right / 2))

zero-bit_and : (b : ℕ) → bit_and 0 b ≡ 0
zero-bit_and b = bit_and-bitwise 0 b

pub zero-bit_or : (b : ℕ) → bit_or 0 b ≡ b
zero-bit_or b = bit_or-bitwise 0 b

bit_and_step : (a b : ℕ) → bit_and a b ≡ bit_and (a / 2) (b / 2) * 2 + min (a % 2) (b % 2)
bit_and_step = halved (λ b. zero) min bit_and bit_and-bitwise λ right. omega arith

bit_or_step : (a b : ℕ) → bit_or a b ≡ bit_or (a / 2) (b / 2) * 2 + max (a % 2) (b % 2)
bit_or_step = halved (λ b. b) max bit_or bit_or-bitwise λ right. omega arith

shifted_halves : (k b : ℕ) → b * 2 ^ suc k ≡ 2 * (b * 2 ^ k)
shifted_halves k b = omega (arith, ap (λ (t : ℕ). b * t) (pow-suc 2 k))

-- A field that starts at bit `k`, above all the bits of `a`, is joined by `|` as by `+`.
pub bit_or_field : (k a b : ℕ) → a < 2 ^ k → bit_or a (b * 2 ^ k) ≡ a + b * 2 ^ k
bit_or_field zero zero b h = omega (arith, zero-bit_or (b * 1))
bit_or_field zero (suc a) b h = absurd (omega arith)
bit_or_field (suc k) a b h = ground (
  arith,
  bit_or_step a (b * 2 ^ suc k),
  shifted_halves k b,
  pow-suc 2 k,
  bit_or_field k (a / 2) b,
)

nothing_masked : (rounds_left a : ℕ) → a ≤ rounds_left → bit_and a 0 ≡ 0
nothing_masked rounds_left zero h = zero-bit_and 0
nothing_masked zero (suc a) h = absurd (omega arith)
nothing_masked (suc rounds_left) (suc a) h =
    omega (arith, nothing_masked rounds_left (suc a / 2) (omega arith), bit_and_step (suc a) 0)

bit_and-zero : (a : ℕ) → bit_and a 0 ≡ 0
bit_and-zero a = nothing_masked a a (omega arith)

bit_and_low_split : (k q r : ℕ) → r < 2 ^ k → bit_and (r + q * 2 ^ k) (2 ^ k - 1) ≡ r
bit_and_low_split zero q r h = ground (arith, bit_and-zero (r + q * 1))
bit_and_low_split (suc k) q r h = ground (
  arith,
  bit_and_step (r + q * 2 ^ suc k) (2 ^ suc k - 1),
  shifted_halves k q,
  pow-suc 2 k,
  one-le-pow k 2,
  bit_and_low_split k q (r / 2),
)

-- The mask of the `k` lowest bits is the remainder by `2 ^ k`.
pub bit_and_low : (k a : ℕ) → bit_and a (2 ^ k - 1) ≡ a % 2 ^ k
bit_and_low k a = ground (arith, one-le-pow k 2, bit_and_low_split k (a / 2 ^ k) (a % 2 ^ k))

bit_and_high_split : (k q r : ℕ) → r < 2 ^ k → bit_and (r + q * 2 ^ k) (2 ^ k) ≡ q % 2 * 2 ^ k
bit_and_high_split zero q r h =
    ground (arith, bit_and_step (r + q * 1) 1, bit_and-zero ((r + q * 1) / 2))
bit_and_high_split (suc k) q r h = ground (
  arith,
  bit_and_step (r + q * 2 ^ suc k) (2 ^ suc k),
  shifted_halves k q,
  shifted_halves k (q % 2),
  pow-suc 2 k,
  bit_and_high_split k q (r / 2),
)

-- The mask of bit `k` alone.
pub bit_and_bit : (k a : ℕ) → bit_and a (2 ^ k) ≡ a / 2 ^ k % 2 * 2 ^ k
bit_and_bit k a = ground (arith, one-le-pow k 2, bit_and_high_split k (a / 2 ^ k) (a % 2 ^ k))
