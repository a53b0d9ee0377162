-- ===== src/Internal/MsgClientChatEnter.antt =====
-- `struct MsgClientChatEnter` of include/steamclient/types/generated/SteamLanguageInternal.hpp: its fields,
-- its default constructor, `Serialize` and `Deserialize`. Every integer is its bit pattern.
use steam_min_cpp.Prelude.{ℕ, ◌^◌, ◌<◌, List, ◌++◌, length-append, arith}
use steam_min_cpp.Stream.{M, ◌>>=◌, ◌>>◌, pure, write, read}
use steam_min_cpp.Stream.Bytes.{le_bytes, length-le_bytes}
use steam_min_cpp.Stream.Laws.{
  Writes-write, Writes-then, Parses-read, Parses-bind, Parses-last, Consumes-read, Consumes-bind,
  Consumes-last,
}
use steam_min_cpp.Internal.Serializable.{IsSerializable, SerializableClass}
use steam_min_cpp.Enums.EChatRoomEnterResponse
use steam_min_cpp.Enums.EChatRoomType
use steam_min_cpp.Enums.EMsg

pub record MsgClientChatEnter : Type 0 where
  pub steam_id_chat : ℕ
  pub steam_id_friend : ℕ
  pub chat_room_type : ℕ
  pub steam_id_owner : ℕ
  pub steam_id_clan : ℕ
  pub chat_flags : ℕ
  pub enter_response : ℕ
  pub num_members : ℕ

unfoldable pub new : MsgClientChatEnter
new = record {
  steam_id_chat = 0;
  steam_id_friend = 0;
  chat_room_type = EChatRoomType.unknown;
  steam_id_owner = 0;
  steam_id_clan = 0;
  chat_flags = 0;
  enter_response = EChatRoomEnterResponse.unknown;
  num_members = 0;
}

unfoldable pub get_emsg : MsgClientChatEnter → ℕ
get_emsg m = EMsg.client_chat_enter

unfoldable pub serialize : MsgClientChatEnter → M (Unit {0})
serialize m = do
  write 8 m.steam_id_chat
  write 8 m.steam_id_friend
  write 4 m.chat_room_type
  write 8 m.steam_id_owner
  write 8 m.steam_id_clan
  write 1 m.chat_flags
  write 4 m.enter_response
  write 4 m.num_members

unfoldable pub deserialize : M MsgClientChatEnter
deserialize = do
  steam_id_chat ← read 8
  steam_id_friend ← read 8
  chat_room_type ← read 4
  steam_id_owner ← read 8
  steam_id_clan ← read 8
  chat_flags ← read 1
  enter_response ← read 4
  num_members ← read 4
  pure (record {
    steam_id_chat = steam_id_chat;
    steam_id_friend = steam_id_friend;
    chat_room_type = chat_room_type;
    steam_id_owner = steam_id_owner;
    steam_id_clan = steam_id_clan;
    chat_flags = chat_flags;
    enter_response = enter_response;
    num_members = num_members;
  })

-- Each field is a value of its type.
abbrev pub IsWf : MsgClientChatEnter → Type 0
IsWf m =
    (m.steam_id_chat < 2 ^ 64)
    × (m.steam_id_friend < 2 ^ 64)
    × (m.chat_room_type < 2 ^ 32)
    × (m.steam_id_owner < 2 ^ 64)
    × (m.steam_id_clan < 2 ^ 64)
    × (m.chat_flags < 2 ^ 8)
    × (m.enter_response < 2 ^ 32)
    × (m.num_members < 2 ^ 32)

abbrev encoding : MsgClientChatEnter → List ℕ
encoding m =
    le_bytes 8 m.steam_id_chat
    ++ (le_bytes 8 m.steam_id_friend
        ++ (le_bytes 4 m.chat_room_type
            ++ (le_bytes 8 m.steam_id_owner
                ++ (le_bytes 8 m.steam_id_clan
                    ++ (le_bytes 1 m.chat_flags
                        ++ (le_bytes 4 m.enter_response ++ le_bytes 4 m.num_members))))))

pub MsgClientChatEnter-IsSerializable :
    IsSerializable MsgClientChatEnter IsWf new serialize deserialize 45
unfolding new serialize deserialize
MsgClientChatEnter-IsSerializable = record {
  new_is_wf = omega arith;
  encoding = encoding;
  writes = λ m. Writes-then (Writes-write 8 m.steam_id_chat) (
      Writes-then (Writes-write 8 m.steam_id_friend) (
        Writes-then (Writes-write 4 m.chat_room_type) (
          Writes-then (Writes-write 8 m.steam_id_owner) (
            Writes-then (Writes-write 8 m.steam_id_clan) (
              Writes-then (Writes-write 1 m.chat_flags)
                (Writes-then (Writes-write 4 m.enter_response) (Writes-write 4 m.num_members)))))));
  parses = λ m h. Parses-bind _ (Parses-read 8 m.steam_id_chat h.0) (
      Parses-bind _ (Parses-read 8 m.steam_id_friend h.1) (
        Parses-bind _ (Parses-read 4 m.chat_room_type h.2) (
          Parses-bind _ (Parses-read 8 m.steam_id_owner h.3) (
            Parses-bind _ (Parses-read 8 m.steam_id_clan h.4) (
              Parses-bind _ (Parses-read 1 m.chat_flags h.5) (
                Parses-bind _ (Parses-read 4 m.enter_response h.6)
                  (Parses-last _ (Parses-read 4 m.num_members h.7))))))));
  size_lem = λ m h. omega (
    arith,
    length-append (le_bytes 8 m.steam_id_chat) (
        le_bytes 8 m.steam_id_friend
        ++ (le_bytes 4 m.chat_room_type
            ++ (le_bytes 8 m.steam_id_owner
                ++ (le_bytes 8 m.steam_id_clan
                    ++ (le_bytes 1 m.chat_flags
                        ++ (le_bytes 4 m.enter_response ++ le_bytes 4 m.num_members)))))),
    length-le_bytes 8 m.steam_id_chat,
    length-append (le_bytes 8 m.steam_id_friend) (
        le_bytes 4 m.chat_room_type
        ++ (le_bytes 8 m.steam_id_owner
            ++ (le_bytes 8 m.steam_id_clan
                ++ (le_bytes 1 m.chat_flags
                    ++ (le_bytes 4 m.enter_response ++ le_bytes 4 m.num_members))))),
    length-le_bytes 8 m.steam_id_friend,
    length-append (le_bytes 4 m.chat_room_type) (
        le_bytes 8 m.steam_id_owner
        ++ (le_bytes 8 m.steam_id_clan
            ++ (le_bytes 1 m.chat_flags
                ++ (le_bytes 4 m.enter_response ++ le_bytes 4 m.num_members)))),
    length-le_bytes 4 m.chat_room_type,
    length-append (le_bytes 8 m.steam_id_owner) (
        le_bytes 8 m.steam_id_clan
        ++ (le_bytes 1 m.chat_flags ++ (le_bytes 4 m.enter_response ++ le_bytes 4 m.num_members))),
    length-le_bytes 8 m.steam_id_owner,
    length-append (le_bytes 8 m.steam_id_clan)
        (le_bytes 1 m.chat_flags ++ (le_bytes 4 m.enter_response ++ le_bytes 4 m.num_members)),
    length-le_bytes 8 m.steam_id_clan,
    length-append (le_bytes 1 m.chat_flags)
        (le_bytes 4 m.enter_response ++ le_bytes 4 m.num_members),
    length-le_bytes 1 m.chat_flags,
    length-append (le_bytes 4 m.enter_response) (le_bytes 4 m.num_members),
    length-le_bytes 4 m.enter_response,
    length-le_bytes 4 m.num_members,
  );
  consumes = Consumes-bind _ (Consumes-read 8 (omega arith)) (λ steam_id_chat.
      Consumes-bind _ (Consumes-read 8 (omega arith)) (λ steam_id_friend.
        Consumes-bind _ (Consumes-read 4 (omega arith)) (λ chat_room_type.
          Consumes-bind _ (Consumes-read 8 (omega arith)) (λ steam_id_owner.
            Consumes-bind _ (Consumes-read 8 (omega arith)) (λ steam_id_clan.
              Consumes-bind _ (Consumes-read 1 (omega arith)) (λ chat_flags.
                Consumes-bind _ (Consumes-read 4 (omega arith))
                  (λ enter_response. Consumes-last _ (Consumes-read 4 (omega arith)))))))));
}

abbrev pub class : SerializableClass
class = record {
  Body = MsgClientChatEnter;
  IsWf = IsWf;
  new = new;
  serialize = serialize;
  deserialize = deserialize;
  size = 45;
  laws = MsgClientChatEnter-IsSerializable;
}
