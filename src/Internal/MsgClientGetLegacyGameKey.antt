-- ===== src/Internal/MsgClientGetLegacyGameKey.antt =====
-- `struct MsgClientGetLegacyGameKey` of include/steamclient/types/generated/SteamLanguageInternal.hpp: its fields,
-- its default constructor, `Serialize` and `Deserialize`. Every integer is its bit pattern.
use steam_min_cpp.Prelude.{ℕ, ◌^◌, ◌<◌, List, arith}
use steam_min_cpp.Stream.{M, ◌>>=◌, pure, write, read}
use steam_min_cpp.Stream.Bytes.{le_bytes, length-le_bytes}
use steam_min_cpp.Stream.Laws.{Writes-write, Parses-read, Parses-last, Consumes-read, Consumes-last}
use steam_min_cpp.Internal.Serializable.{IsSerializable, SerializableClass}
use steam_min_cpp.Enums.EMsg

pub record MsgClientGetLegacyGameKey : Type 0 where
  pub app_id : ℕ

unfoldable pub new : MsgClientGetLegacyGameKey
new = record { app_id = 0 }

unfoldable pub get_emsg : MsgClientGetLegacyGameKey → ℕ
get_emsg m = EMsg.client_get_legacy_game_key

unfoldable pub serialize : MsgClientGetLegacyGameKey → M (Unit {0})
serialize m = write 4 m.app_id

unfoldable pub deserialize : M MsgClientGetLegacyGameKey
deserialize = do app_id ← read 4; pure (record { app_id = app_id })

-- Each field is a value of its type.
abbrev pub IsWf : MsgClientGetLegacyGameKey → Type 0
IsWf m = (m.app_id < 2 ^ 32)

abbrev encoding : MsgClientGetLegacyGameKey → List ℕ
encoding m = le_bytes 4 m.app_id

pub MsgClientGetLegacyGameKey-IsSerializable :
    IsSerializable MsgClientGetLegacyGameKey IsWf new serialize deserialize 4
unfolding new serialize deserialize
MsgClientGetLegacyGameKey-IsSerializable = record {
  new_is_wf = omega arith;
  encoding = encoding;
  writes = λ m. Writes-write 4 m.app_id;
  parses = λ m h. Parses-last _ (Parses-read 4 m.app_id h);
  size_lem = λ m h. omega (arith, length-le_bytes 4 m.app_id);
  consumes = Consumes-last _ (Consumes-read 4 (omega arith));
}

abbrev pub class : SerializableClass
class = record {
  Body = MsgClientGetLegacyGameKey;
  IsWf = IsWf;
  new = new;
  serialize = serialize;
  deserialize = deserialize;
  size = 4;
  laws = MsgClientGetLegacyGameKey-IsSerializable;
}
