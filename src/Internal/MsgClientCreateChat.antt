-- ===== src/Internal/MsgClientCreateChat.antt =====
-- `struct MsgClientCreateChat` of include/steamclient/types/generated/SteamLanguageInternal.hpp: its fields,
-- its default constructor, `Serialize` and `Deserialize`. Every integer is its bit pattern.
use steam_min_cpp.Prelude.{ℕ, ◌^◌, ◌<◌, List, ◌++◌, length-append, arith}
use steam_min_cpp.Stream.{M, ◌>>=◌, ◌>>◌, pure, write, read}
use steam_min_cpp.Stream.Bytes.{le_bytes, length-le_bytes}
use steam_min_cpp.Stream.Laws.{
  Writes-write, Writes-then, Parses-read, Parses-bind, Parses-last, Consumes-read, Consumes-bind,
  Consumes-last,
}
use steam_min_cpp.Internal.Serializable.{IsSerializable, SerializableClass}
use steam_min_cpp.Enums.EChatPermission
use steam_min_cpp.Enums.EChatRoomType
use steam_min_cpp.Enums.EMsg

pub record MsgClientCreateChat : Type 0 where
  pub chat_room_type : ℕ
  pub game_id : ℕ
  pub steam_id_clan : ℕ
  pub permission_officer : ℕ
  pub permission_member : ℕ
  pub permission_all : ℕ
  pub members_max : ℕ
  pub chat_flags : ℕ
  pub steam_id_friend_chat : ℕ
  pub steam_id_invited : ℕ

unfoldable pub new : MsgClientCreateChat
new = record {
  chat_room_type = EChatRoomType.unknown;
  game_id = 0;
  steam_id_clan = 0;
  permission_officer = EChatPermission.officer_default;
  permission_member = EChatPermission.member_default;
  permission_all = EChatPermission.owner_default;
  members_max = 0;
  chat_flags = 0;
  steam_id_friend_chat = 0;
  steam_id_invited = 0;
}

unfoldable pub get_emsg : MsgClientCreateChat → ℕ
get_emsg m = EMsg.client_create_chat

unfoldable pub serialize : MsgClientCreateChat → M (Unit {0})
serialize m = do
  write 4 m.chat_room_type
  write 8 m.game_id
  write 8 m.steam_id_clan
  write 4 m.permission_officer
  write 4 m.permission_member
  write 4 m.permission_all
  write 4 m.members_max
  write 1 m.chat_flags
  write 8 m.steam_id_friend_chat
  write 8 m.steam_id_invited

unfoldable pub deserialize : M MsgClientCreateChat
deserialize = do
  chat_room_type ← read 4
  game_id ← read 8
  steam_id_clan ← read 8
  permission_officer ← read 4
  permission_member ← read 4
  permission_all ← read 4
  members_max ← read 4
  chat_flags ← read 1
  steam_id_friend_chat ← read 8
  steam_id_invited ← read 8
  pure (record {
    chat_room_type = chat_room_type;
    game_id = game_id;
    steam_id_clan = steam_id_clan;
    permission_officer = permission_officer;
    permission_member = permission_member;
    permission_all = permission_all;
    members_max = members_max;
    chat_flags = chat_flags;
    steam_id_friend_chat = steam_id_friend_chat;
    steam_id_invited = steam_id_invited;
  })

-- Each field is a value of its type.
abbrev pub IsWf : MsgClientCreateChat → Type 0
IsWf m =
    (m.chat_room_type < 2 ^ 32)
    × (m.game_id < 2 ^ 64)
    × (m.steam_id_clan < 2 ^ 64)
    × (m.permission_officer < 2 ^ 32)
    × (m.permission_member < 2 ^ 32)
    × (m.permission_all < 2 ^ 32)
    × (m.members_max < 2 ^ 32)
    × (m.chat_flags < 2 ^ 8)
    × (m.steam_id_friend_chat < 2 ^ 64)
    × (m.steam_id_invited < 2 ^ 64)

abbrev encoding : MsgClientCreateChat → List ℕ
encoding m =
    le_bytes 4 m.chat_room_type
    ++ (le_bytes 8 m.game_id
        ++ (le_bytes 8 m.steam_id_clan
            ++ (le_bytes 4 m.permission_officer
                ++ (le_bytes 4 m.permission_member
                    ++ (le_bytes 4 m.permission_all
                        ++ (le_bytes 4 m.members_max
                            ++ (le_bytes 1 m.chat_flags
                                ++ (le_bytes 8 m.steam_id_friend_chat
                                    ++ le_bytes 8 m.steam_id_invited))))))))

pub MsgClientCreateChat-IsSerializable :
    IsSerializable MsgClientCreateChat IsWf new serialize deserialize 53
unfolding new serialize deserialize
MsgClientCreateChat-IsSerializable = record {
  new_is_wf = omega arith;
  encoding = encoding;
  writes = λ m. Writes-then (Writes-write 4 m.chat_room_type) (
      Writes-then (Writes-write 8 m.game_id) (
        Writes-then (Writes-write 8 m.steam_id_clan) (
          Writes-then (Writes-write 4 m.permission_officer) (
            Writes-then (Writes-write 4 m.permission_member) (
              Writes-then (Writes-write 4 m.permission_all) (
                Writes-then (Writes-write 4 m.members_max) (
                  Writes-then (Writes-write 1 m.chat_flags) (
                    Writes-then (Writes-write 8 m.steam_id_friend_chat)
                      (Writes-write 8 m.steam_id_invited)))))))));
  parses = λ m h. Parses-bind _ (Parses-read 4 m.chat_room_type h.0) (
      Parses-bind _ (Parses-read 8 m.game_id h.1) (
        Parses-bind _ (Parses-read 8 m.steam_id_clan h.2) (
          Parses-bind _ (Parses-read 4 m.permission_officer h.3) (
            Parses-bind _ (Parses-read 4 m.permission_member h.4) (
              Parses-bind _ (Parses-read 4 m.permission_all h.5) (
                Parses-bind _ (Parses-read 4 m.members_max h.6) (
                  Parses-bind _ (Parses-read 1 m.chat_flags h.7) (
                    Parses-bind _ (Parses-read 8 m.steam_id_friend_chat h.8)
                      (Parses-last _ (Parses-read 8 m.steam_id_invited h.9))))))))));
  size_lem = λ m h. omega (
    arith,
    length-append (le_bytes 4 m.chat_room_type) (
        le_bytes 8 m.game_id
        ++ (le_bytes 8 m.steam_id_clan
            ++ (le_bytes 4 m.permission_officer
                ++ (le_bytes 4 m.permission_member
                    ++ (le_bytes 4 m.permission_all
                        ++ (le_bytes 4 m.members_max
                            ++ (le_bytes 1 m.chat_flags
                                ++ (le_bytes 8 m.steam_id_friend_chat
                                    ++ le_bytes 8 m.steam_id_invited)))))))),
    length-le_bytes 4 m.chat_room_type,
    length-append (le_bytes 8 m.game_id) (
        le_bytes 8 m.steam_id_clan
        ++ (le_bytes 4 m.permission_officer
            ++ (le_bytes 4 m.permission_member
                ++ (le_bytes 4 m.permission_all
                    ++ (le_bytes 4 m.members_max
                        ++ (le_bytes 1 m.chat_flags
                            ++ (le_bytes 8 m.steam_id_friend_chat
                                ++ le_bytes 8 m.steam_id_invited))))))),
    length-le_bytes 8 m.game_id,
    length-append (le_bytes 8 m.steam_id_clan) (
        le_bytes 4 m.permission_officer
        ++ (le_bytes 4 m.permission_member
            ++ (le_bytes 4 m.permission_all
                ++ (le_bytes 4 m.members_max
                    ++ (le_bytes 1 m.chat_flags
                        ++ (le_bytes 8 m.steam_id_friend_chat
                            ++ le_bytes 8 m.steam_id_invited)))))),
    length-le_bytes 8 m.steam_id_clan,
    length-append (le_bytes 4 m.permission_officer) (
        le_bytes 4 m.permission_member
        ++ (le_bytes 4 m.permission_all
            ++ (le_bytes 4 m.members_max
                ++ (le_bytes 1 m.chat_flags
                    ++ (le_bytes 8 m.steam_id_friend_chat ++ le_bytes 8 m.steam_id_invited))))),
    length-le_bytes 4 m.permission_officer,
    length-append (le_bytes 4 m.permission_member) (
        le_bytes 4 m.permission_all
        ++ (le_bytes 4 m.members_max
            ++ (le_bytes 1 m.chat_flags
                ++ (le_bytes 8 m.steam_id_friend_chat ++ le_bytes 8 m.steam_id_invited)))),
    length-le_bytes 4 m.permission_member,
    length-append (le_bytes 4 m.permission_all) (
        le_bytes 4 m.members_max
        ++ (le_bytes 1 m.chat_flags
            ++ (le_bytes 8 m.steam_id_friend_chat ++ le_bytes 8 m.steam_id_invited))),
    length-le_bytes 4 m.permission_all,
    length-append (le_bytes 4 m.members_max) (
        le_bytes 1 m.chat_flags
        ++ (le_bytes 8 m.steam_id_friend_chat ++ le_bytes 8 m.steam_id_invited)),
    length-le_bytes 4 m.members_max,
    length-append (le_bytes 1 m.chat_flags)
        (le_bytes 8 m.steam_id_friend_chat ++ le_bytes 8 m.steam_id_invited),
    length-le_bytes 1 m.chat_flags,
    length-append (le_bytes 8 m.steam_id_friend_chat) (le_bytes 8 m.steam_id_invited),
    length-le_bytes 8 m.steam_id_friend_chat,
    length-le_bytes 8 m.steam_id_invited,
  );
  consumes = Consumes-bind _ (Consumes-read 4 (omega arith)) (λ chat_room_type.
      Consumes-bind _ (Consumes-read 8 (omega arith)) (λ game_id.
        Consumes-bind _ (Consumes-read 8 (omega arith)) (λ steam_id_clan.
          Consumes-bind _ (Consumes-read 4 (omega arith)) (λ permission_officer.
            Consumes-bind _ (Consumes-read 4 (omega arith)) (λ permission_member.
              Consumes-bind _ (Consumes-read 4 (omega arith)) (λ permission_all.
                Consumes-bind _ (Consumes-read 4 (omega arith)) (λ members_max.
                  Consumes-bind _ (Consumes-read 1 (omega arith)) (λ chat_flags.
                    Consumes-bind _ (Consumes-read 8 (omega arith)) (λ steam_id_friend_chat.
                      Consumes-last _ (Consumes-read 8 (omega arith)))))))))));
}

abbrev pub class : SerializableClass
class = record {
  Body = MsgClientCreateChat;
  IsWf = IsWf;
  new = new;
  serialize = serialize;
  deserialize = deserialize;
  size = 53;
  laws = MsgClientCreateChat-IsSerializable;
}
