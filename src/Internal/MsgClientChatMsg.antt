-- ===== src/Internal/MsgClientChatMsg.antt =====
-- `struct MsgClientChatMsg` of include/steamclient/types/generated/SteamLanguageInternal.hpp: its fields,
-- its default constructor, `Serialize` and `Deserialize`. Every integer is its bit pattern.
use steam_min_cpp.Prelude.{ℕ, ◌^◌, ◌<◌, List, ◌++◌, length-append, arith}
use steam_min_cpp.Stream.{M, ◌>>=◌, ◌>>◌, pure, write, read}
use steam_min_cpp.Stream.Bytes.{le_bytes, length-le_bytes}
use steam_min_cpp.Stream.Laws.{
  Writes-write, Writes-then, Parses-read, Parses-bind, Parses-last, Consumes-read, Consumes-bind,
  Consumes-last,
}
use steam_min_cpp.Internal.Serializable.{IsSerializable, SerializableClass}
use steam_min_cpp.Enums.EChatEntryType
use steam_min_cpp.Enums.EMsg

pub record MsgClientChatMsg : Type 0 where
  pub steam_id_chatter : ℕ
  pub steam_id_chat_room : ℕ
  pub chat_msg_type : ℕ

unfoldable pub new : MsgClientChatMsg
new = record {
  steam_id_chatter = 0;
  steam_id_chat_room = 0;
  chat_msg_type = EChatEntryType.invalid;
}

unfoldable pub get_emsg : MsgClientChatMsg → ℕ
get_emsg m = EMsg.client_chat_msg

unfoldable pub serialize : MsgClientChatMsg → M (Unit {0})
serialize m = do write 8 m.steam_id_chatter; write 8 m.steam_id_chat_room; write 4 m.chat_msg_type

unfoldable pub deserialize : M MsgClientChatMsg
deserialize = do
  steam_id_chatter ← read 8
  steam_id_chat_room ← read 8
  chat_msg_type ← read 4
  pure (record {
    steam_id_chatter = steam_id_chatter;
    steam_id_chat_room = steam_id_chat_room;
    chat_msg_type = chat_msg_type;
  })

-- Each field is a value of its type.
abbrev pub IsWf : MsgClientChatMsg → Type 0
IsWf m =
    (m.steam_id_chatter < 2 ^ 64) × (m.steam_id_chat_room < 2 ^ 64) × (m.chat_msg_type < 2 ^ 32)

abbrev encoding : MsgClientChatMsg → List ℕ
encoding m =
    le_bytes 8 m.steam_id_chatter ++ (le_bytes 8 m.steam_id_chat_room ++ le_bytes 4 m.chat_msg_type)

pub MsgClientChatMsg-IsSerializable :
    IsSerializable MsgClientChatMsg IsWf new serialize deserialize 20
unfolding new serialize deserialize
MsgClientChatMsg-IsSerializable = record {
  new_is_wf = omega arith;
  encoding = encoding;
  writes = λ m.
      Writes-then (Writes-write 8 m.steam_id_chatter)
        (Writes-then (Writes-write 8 m.steam_id_chat_room) (Writes-write 4 m.chat_msg_type));
  parses = λ m h. Parses-bind _ (Parses-read 8 m.steam_id_chatter h.0) (
      Parses-bind _ (Parses-read 8 m.steam_id_chat_room h.1)
        (Parses-last _ (Parses-read 4 m.chat_msg_type h.2)));
  size_lem = λ m h. omega (
    arith,
    length-append (le_bytes 8 m.steam_id_chatter)
        (le_bytes 8 m.steam_id_chat_room ++ le_bytes 4 m.chat_msg_type),
    length-le_bytes 8 m.steam_id_chatter,
    length-append (le_bytes 8 m.steam_id_chat_room) (le_bytes 4 m.chat_msg_type),
    length-le_bytes 8 m.steam_id_chat_room,
    length-le_bytes 4 m.chat_msg_type,
  );
  consumes = Consumes-bind _ (Consumes-read 8 (omega arith)) (λ steam_id_chatter.
      Consumes-bind _ (Consumes-read 8 (omega arith))
        (λ steam_id_chat_room. Consumes-last _ (Consumes-read 4 (omega arith))));
}

abbrev pub class : SerializableClass
class = record {
  Body = MsgClientChatMsg;
  IsWf = IsWf;
  new = new;
  serialize = serialize;
  deserialize = deserialize;
  size = 20;
  laws = MsgClientChatMsg-IsSerializable;
}
