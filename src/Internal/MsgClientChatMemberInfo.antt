-- ===== src/Internal/MsgClientChatMemberInfo.antt =====
-- `struct MsgClientChatMemberInfo` of include/steamclient/types/generated/SteamLanguageInternal.hpp: its fields,
-- its default constructor, `Serialize` and `Deserialize`. Every integer is its bit pattern.
use steam_min_cpp.Prelude.{ℕ, ◌^◌, ◌<◌, List, ◌++◌, length-append, arith}
use steam_min_cpp.Stream.{M, ◌>>=◌, ◌>>◌, pure, write, read}
use steam_min_cpp.Stream.Bytes.{le_bytes, length-le_bytes}
use steam_min_cpp.Stream.Laws.{
  Writes-write, Writes-then, Parses-read, Parses-bind, Parses-last, Consumes-read, Consumes-bind,
  Consumes-last,
}
use steam_min_cpp.Internal.Serializable.{IsSerializable, SerializableClass}
use steam_min_cpp.Enums.EChatInfoType
use steam_min_cpp.Enums.EMsg

pub record MsgClientChatMemberInfo : Type 0 where
  pub steam_id_chat : ℕ
  pub type : ℕ

unfoldable pub new : MsgClientChatMemberInfo
new = record { steam_id_chat = 0; type = EChatInfoType.unknown }

unfoldable pub get_emsg : MsgClientChatMemberInfo → ℕ
get_emsg m = EMsg.client_chat_member_info

unfoldable pub serialize : MsgClientChatMemberInfo → M (Unit {0})
serialize m = do write 8 m.steam_id_chat; write 4 m.type

unfoldable pub deserialize : M MsgClientChatMemberInfo
deserialize = do
  steam_id_chat ← read 8
  type ← read 4
  pure (record { steam_id_chat = steam_id_chat; type = type })

-- Each field is a value of its type.
abbrev pub IsWf : MsgClientChatMemberInfo → Type 0
IsWf m = (m.steam_id_chat < 2 ^ 64) × (m.type < 2 ^ 32)

abbrev encoding : MsgClientChatMemberInfo → List ℕ
encoding m = le_bytes 8 m.steam_id_chat ++ le_bytes 4 m.type

pub MsgClientChatMemberInfo-IsSerializable :
    IsSerializable MsgClientChatMemberInfo IsWf new serialize deserialize 12
unfolding new serialize deserialize
MsgClientChatMemberInfo-IsSerializable = record {
  new_is_wf = omega arith;
  encoding = encoding;
  writes = λ m. Writes-then (Writes-write 8 m.steam_id_chat) (Writes-write 4 m.type);
  parses = λ m h.
      Parses-bind _ (Parses-read 8 m.steam_id_chat h.0) (Parses-last _ (Parses-read 4 m.type h.1));
  size_lem = λ m h. omega (
    arith,
    length-append (le_bytes 8 m.steam_id_chat) (le_bytes 4 m.type),
    length-le_bytes 8 m.steam_id_chat,
    length-le_bytes 4 m.type,
  );
  consumes =
      Consumes-bind _ (Consumes-read 8 (omega arith))
        (λ steam_id_chat. Consumes-last _ (Consumes-read 4 (omega arith)));
}

abbrev pub class : SerializableClass
class = record {
  Body = MsgClientChatMemberInfo;
  IsWf = IsWf;
  new = new;
  serialize = serialize;
  deserialize = deserialize;
  size = 12;
  laws = MsgClientChatMemberInfo-IsSerializable;
}
