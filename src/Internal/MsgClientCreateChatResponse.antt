-- ===== src/Internal/MsgClientCreateChatResponse.antt =====
-- `struct MsgClientCreateChatResponse` of include/steamclient/types/generated/SteamLanguageInternal.hpp: its fields,
-- its default constructor, `Serialize` and `Deserialize`. Every integer is its bit pattern.
use steam_min_cpp.Prelude.{ℕ, ◌^◌, ◌<◌, List, ◌++◌, length-append, arith}
use steam_min_cpp.Stream.{M, ◌>>=◌, ◌>>◌, pure, write, read}
use steam_min_cpp.Stream.Bytes.{le_bytes, length-le_bytes}
use steam_min_cpp.Stream.Laws.{
  Writes-write, Writes-then, Parses-read, Parses-bind, Parses-last, Consumes-read, Consumes-bind,
  Consumes-last,
}
use steam_min_cpp.Internal.Serializable.{IsSerializable, SerializableClass}
use steam_min_cpp.Enums.EChatRoomType
use steam_min_cpp.Enums.EMsg
use steam_min_cpp.Enums.EResult

pub record MsgClientCreateChatResponse : Type 0 where
  pub result : ℕ
  pub steam_id_chat : ℕ
  pub chat_room_type : ℕ
  pub steam_id_friend_chat : ℕ

unfoldable pub new : MsgClientCreateChatResponse
new = record {
  result = EResult.invalid;
  steam_id_chat = 0;
  chat_room_type = EChatRoomType.unknown;
  steam_id_friend_chat = 0;
}

unfoldable pub get_emsg : MsgClientCreateChatResponse → ℕ
get_emsg m = EMsg.client_create_chat_response

unfoldable pub serialize : MsgClientCreateChatResponse → M (Unit {0})
serialize m = do
  write 4 m.result
  write 8 m.steam_id_chat
  write 4 m.chat_room_type
  write 8 m.steam_id_friend_chat

unfoldable pub deserialize : M MsgClientCreateChatResponse
deserialize = do
  result ← read 4
  steam_id_chat ← read 8
  chat_room_type ← read 4
  steam_id_friend_chat ← read 8
  pure (record {
    result = result;
    steam_id_chat = steam_id_chat;
    chat_room_type = chat_room_type;
    steam_id_friend_chat = steam_id_friend_chat;
  })

-- Each field is a value of its type.
abbrev pub IsWf : MsgClientCreateChatResponse → Type 0
IsWf m =
    (m.result < 2 ^ 32)
    × (m.steam_id_chat < 2 ^ 64)
    × (m.chat_room_type < 2 ^ 32)
    × (m.steam_id_friend_chat < 2 ^ 64)

abbrev encoding : MsgClientCreateChatResponse → List ℕ
encoding m =
    le_bytes 4 m.result
    ++ (le_bytes 8 m.steam_id_chat
        ++ (le_bytes 4 m.chat_room_type ++ le_bytes 8 m.steam_id_friend_chat))

pub MsgClientCreateChatResponse-IsSerializable :
    IsSerializable MsgClientCreateChatResponse IsWf new serialize deserialize 24
unfolding new serialize deserialize
MsgClientCreateChatResponse-IsSerializable = record {
  new_is_wf = omega arith;
  encoding = encoding;
  writes = λ m. Writes-then (Writes-write 4 m.result) (
      Writes-then (Writes-write 8 m.steam_id_chat)
        (Writes-then (Writes-write 4 m.chat_room_type) (Writes-write 8 m.steam_id_friend_chat)));
  parses = λ m h. Parses-bind _ (Parses-read 4 m.result h.0) (
      Parses-bind _ (Parses-read 8 m.steam_id_chat h.1) (
        Parses-bind _ (Parses-read 4 m.chat_room_type h.2)
          (Parses-last _ (Parses-read 8 m.steam_id_friend_chat h.3))));
  size_lem = λ m h. omega (
    arith,
    length-append (le_bytes 4 m.result) (
        le_bytes 8 m.steam_id_chat
        ++ (le_bytes 4 m.chat_room_type ++ le_bytes 8 m.steam_id_friend_chat)),
    length-le_bytes 4 m.result,
    length-append (le_bytes 8 m.steam_id_chat)
        (le_bytes 4 m.chat_room_type ++ le_bytes 8 m.steam_id_friend_chat),
    length-le_bytes 8 m.steam_id_chat,
    length-append (le_bytes 4 m.chat_room_type) (le_bytes 8 m.steam_id_friend_chat),
    length-le_bytes 4 m.chat_room_type,
    length-le_bytes 8 m.steam_id_friend_chat,
  );
  consumes = Consumes-bind _ (Consumes-read 4 (omega arith)) (λ result.
      Consumes-bind _ (Consumes-read 8 (omega arith)) (λ steam_id_chat.
        Consumes-bind _ (Consumes-read 4 (omega arith))
          (λ chat_room_type. Consumes-last _ (Consumes-read 8 (omega arith)))));
}

abbrev pub class : SerializableClass
class = record {
  Body = MsgClientCreateChatResponse;
  IsWf = IsWf;
  new = new;
  serialize = serialize;
  deserialize = deserialize;
  size = 24;
  laws = MsgClientCreateChatResponse-IsSerializable;
}
