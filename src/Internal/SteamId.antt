-- ===== src/Internal/SteamId.antt =====
-- `struct SteamID` and `struct GameID` of
-- include/steamclient/types/generated/SteamLanguageInternal.hpp: a 64-bit account number.
pub mod Fields
use steam_min_cpp.Prelude.{ℕ, ◌+◌, ◌*◌, ◌%◌, ◌^◌, bit_or}

pub record SteamId : Type 0 where
  pub value : ℕ

abbrev pub account_id_shift : ℕ
account_id_shift = 0

abbrev pub instance_shift : ℕ
instance_shift = 32

abbrev pub account_type_shift : ℕ
account_type_shift = 52

abbrev pub universe_shift : ℕ
universe_shift = 56

-- `(uint64_t)x << k`.
abbrev pub shift_left : ℕ → ℕ → ℕ
shift_left x k = x * 2 ^ k % 2 ^ 64

-- `SteamID(accountID, instance, universe, accountType)`; the two enums are 32-bit patterns of
-- non-negative values.
unfoldable pub of_parts : ℕ → ℕ → ℕ → ℕ → SteamId
of_parts account_id instance_no universe account_type = record {
  value =
      bit_or
        (bit_or
          (bit_or (shift_left account_id account_id_shift) (shift_left instance_no instance_shift))
          (shift_left account_type account_type_shift))
        (shift_left universe universe_shift);
}

unfoldable pub of_uint64 : ℕ → SteamId
of_uint64 val = record { value = val }

unfoldable pub convert_to_uint64 : SteamId → ℕ
convert_to_uint64 id = id.value

pub record GameId : Type 0 where
  pub value : ℕ

unfoldable pub game_of_uint64 : ℕ → GameId
game_of_uint64 v = record { value = v }

unfoldable pub game_to_uint64 : GameId → ℕ
game_to_uint64 id = id.value
