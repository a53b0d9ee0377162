-- ===== src/Internal/MsgGsApprove.antt =====
-- `struct MsgGSApprove` of include/steamclient/types/generated/SteamLanguageInternal.hpp: its fields,
-- its default constructor, `Serialize` and `Deserialize`. Every integer is its bit pattern.
use steam_min_cpp.Prelude.{ℕ, ◌^◌, ◌<◌, List, arith}
use steam_min_cpp.Stream.{M, ◌>>=◌, pure, write, read}
use steam_min_cpp.Stream.Bytes.{le_bytes, length-le_bytes}
use steam_min_cpp.Stream.Laws.{Writes-write, Parses-read, Parses-last, Consumes-read, Consumes-last}
use steam_min_cpp.Internal.Serializable.{IsSerializable, SerializableClass}
use steam_min_cpp.Enums.EMsg

pub record MsgGsApprove : Type 0 where
  pub steam_id : ℕ

unfoldable pub new : MsgGsApprove
new = record { steam_id = 0 }

unfoldable pub get_emsg : MsgGsApprove → ℕ
get_emsg m = EMsg.gs_approve

unfoldable pub serialize : MsgGsApprove → M (Unit {0})
serialize m = write 8 m.steam_id

unfoldable pub deserialize : M MsgGsApprove
deserialize = do steam_id ← read 8; pure (record { steam_id = steam_id })

-- Each field is a value of its type.
abbrev pub IsWf : MsgGsApprove → Type 0
IsWf m = (m.steam_id < 2 ^ 64)

abbrev encoding : MsgGsApprove → List ℕ
encoding m = le_bytes 8 m.steam_id

pub MsgGsApprove-IsSerializable : IsSerializable MsgGsApprove IsWf new serialize deserialize 8
unfolding new serialize deserialize
MsgGsApprove-IsSerializable = record {
  new_is_wf = omega arith;
  encoding = encoding;
  writes = λ m. Writes-write 8 m.steam_id;
  parses = λ m h. Parses-last _ (Parses-read 8 m.steam_id h);
  size_lem = λ m h. omega (arith, length-le_bytes 8 m.steam_id);
  consumes = Consumes-last _ (Consumes-read 8 (omega arith));
}

abbrev pub class : SerializableClass
class = record {
  Body = MsgGsApprove;
  IsWf = IsWf;
  new = new;
  serialize = serialize;
  deserialize = deserialize;
  size = 8;
  laws = MsgGsApprove-IsSerializable;
}
