-- ===== src/Internal/SteamId/Fields.antt =====
-- The parts of a SteamID and the bits of its number.
use steam_min_cpp.Prelude.{ℕ, ◌+◌, ◌*◌, ◌/◌, ◌%◌, ◌^◌, ◌≤◌, ◌<◌, ◌≡◌, arith}
use steam_min_cpp.Prelude.Bits.{bit_or_field}
use steam_min_cpp.Internal.SteamId.{of_parts, convert_to_uint64}

-- The value is the sum of the shifted parts, for an account number of 32 bits, an instance of 20,
-- an account type of 4 and a universe of 8.
pub of_parts_sum :
    (account_id instance_no universe account_type : ℕ)
    → account_id < 2 ^ 32
    → instance_no < 2 ^ 20
    → universe < 2 ^ 8
    → account_type < 2 ^ 4
    → convert_to_uint64 (of_parts account_id instance_no universe account_type)
      ≡ account_id + instance_no * 2 ^ 32 + account_type * 2 ^ 52 + universe * 2 ^ 56
unfolding convert_to_uint64 of_parts
of_parts_sum a i u t ha hi hu ht = ground (
  arith,
  bit_or_field 32 a i,
  bit_or_field 52 (a + i * 2 ^ 32) t,
  bit_or_field 56 (a + i * 2 ^ 32 + t * 2 ^ 52) u,
)

-- The number has 64 bits, and each part is read back from it by its shift and mask: no part spills
-- into another, for parts of 32, 20, 8 and 4 bits.
pub of_parts_fields :
    (account_id instance_no universe account_type : ℕ)
    → account_id < 2 ^ 32
    → instance_no < 2 ^ 20
    → universe < 2 ^ 8
    → account_type < 2 ^ 4
    → let value = convert_to_uint64 (of_parts account_id instance_no universe account_type) in
      (value < 2 ^ 64)
      × (value % 2 ^ 32 ≡ account_id)
      × (value / 2 ^ 32 % 2 ^ 20 ≡ instance_no)
      × (value / 2 ^ 52 % 2 ^ 4 ≡ account_type)
      × (value / 2 ^ 56 % 2 ^ 8 ≡ universe)
of_parts_fields a i u t ha hi hu ht = rw (of_parts_sum a i u t ha hi hu ht) (omega arith)

-- The constructor does not apply the instance mask. With an instance from 2 ^ 20 to 2 ^ 24 (the
-- parameter has 32 bits) and the account type 0, an account number of 32 bits and a universe of 8, the
-- account type that is read back is not 0 but the instance's bits above the 20th.
pub of_parts_spills :
    (account_id instance_no universe : ℕ)
    → account_id < 2 ^ 32
    → 2 ^ 20 ≤ instance_no
    → instance_no < 2 ^ 24
    → universe < 2 ^ 8
    → convert_to_uint64 (of_parts account_id instance_no universe 0) / 2 ^ 52 % 2 ^ 4
      ≡ instance_no / 2 ^ 20
unfolding convert_to_uint64 of_parts
of_parts_spills a i u ha hl hi hu = ground (
  arith,
  bit_or_field 32 a i,
  bit_or_field 64 (a + i * 2 ^ 32) 0,
  bit_or_field 56 (a + i * 2 ^ 32) u,
)
