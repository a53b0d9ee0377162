-- ===== src/Internal/MsgClientVacBanStatus.antt =====
-- `struct MsgClientVACBanStatus` of include/steamclient/types/generated/SteamLanguageInternal.hpp: its fields,
-- its default constructor, `Serialize` and `Deserialize`. Every integer is its bit pattern.
use steam_min_cpp.Prelude.{ℕ, ◌^◌, ◌<◌, List, arith}
use steam_min_cpp.Stream.{M, ◌>>=◌, pure, write, read}
use steam_min_cpp.Stream.Bytes.{le_bytes, length-le_bytes}
use steam_min_cpp.Stream.Laws.{Writes-write, Parses-read, Parses-last, Consumes-read, Consumes-last}
use steam_min_cpp.Internal.Serializable.{IsSerializable, SerializableClass}
use steam_min_cpp.Enums.EMsg

pub record MsgClientVacBanStatus : Type 0 where
  pub num_bans : ℕ

unfoldable pub new : MsgClientVacBanStatus
new = record { num_bans = 0 }

unfoldable pub get_emsg : MsgClientVacBanStatus → ℕ
get_emsg m = EMsg.client_vac_ban_status

unfoldable pub serialize : MsgClientVacBanStatus → M (Unit {0})
serialize m = write 4 m.num_bans

unfoldable pub deserialize : M MsgClientVacBanStatus
deserialize = do num_bans ← read 4; pure (record { num_bans = num_bans })

-- Each field is a value of its type.
abbrev pub IsWf : MsgClientVacBanStatus → Type 0
IsWf m = (m.num_bans < 2 ^ 32)

abbrev encoding : MsgClientVacBanStatus → List ℕ
encoding m = le_bytes 4 m.num_bans

pub MsgClientVacBanStatus-IsSerializable :
    IsSerializable MsgClientVacBanStatus IsWf new serialize deserialize 4
unfolding new serialize deserialize
MsgClientVacBanStatus-IsSerializable = record {
  new_is_wf = omega arith;
  encoding = encoding;
  writes = λ m. Writes-write 4 m.num_bans;
  parses = λ m h. Parses-last _ (Parses-read 4 m.num_bans h);
  size_lem = λ m h. omega (arith, length-le_bytes 4 m.num_bans);
  consumes = Consumes-last _ (Consumes-read 4 (omega arith));
}

abbrev pub class : SerializableClass
class = record {
  Body = MsgClientVacBanStatus;
  IsWf = IsWf;
  new = new;
  serialize = serialize;
  deserialize = deserialize;
  size = 4;
  laws = MsgClientVacBanStatus-IsSerializable;
}
