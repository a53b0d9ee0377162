-- ===== src/Internal/MsgClientGetFriendsWhoPlayGameResponse.antt =====
-- `struct MsgClientGetFriendsWhoPlayGameResponse` of include/steamclient/types/generated/SteamLanguageInternal.hpp: its fields,
-- its default constructor, `Serialize` and `Deserialize`. Every integer is its bit pattern.
use steam_min_cpp.Prelude.{ℕ, ◌^◌, ◌<◌, List, ◌++◌, length-append, arith}
use steam_min_cpp.Stream.{M, ◌>>=◌, ◌>>◌, pure, write, read}
use steam_min_cpp.Stream.Bytes.{le_bytes, length-le_bytes}
use steam_min_cpp.Stream.Laws.{
  Writes-write, Writes-then, Parses-read, Parses-bind, Parses-last, Consumes-read, Consumes-bind,
  Consumes-last,
}
use steam_min_cpp.Internal.Serializable.{IsSerializable, SerializableClass}
use steam_min_cpp.Enums.EMsg
use steam_min_cpp.Enums.EResult

pub record MsgClientGetFriendsWhoPlayGameResponse : Type 0 where
  pub result : ℕ
  pub game_id : ℕ
  pub count_friends : ℕ

unfoldable pub new : MsgClientGetFriendsWhoPlayGameResponse
new = record { result = EResult.invalid; game_id = 0; count_friends = 0 }

unfoldable pub get_emsg : MsgClientGetFriendsWhoPlayGameResponse → ℕ
get_emsg m = EMsg.client_get_friends_who_play_game_response

unfoldable pub serialize : MsgClientGetFriendsWhoPlayGameResponse → M (Unit {0})
serialize m = do write 4 m.result; write 8 m.game_id; write 4 m.count_friends

unfoldable pub deserialize : M MsgClientGetFriendsWhoPlayGameResponse
deserialize = do
  result ← read 4
  game_id ← read 8
  count_friends ← read 4
  pure (record { result = result; game_id = game_id; count_friends = count_friends })

-- Each field is a value of its type.
abbrev pub IsWf : MsgClientGetFriendsWhoPlayGameResponse → Type 0
IsWf m = (m.result < 2 ^ 32) × (m.game_id < 2 ^ 64) × (m.count_friends < 2 ^ 32)

abbrev encoding : MsgClientGetFriendsWhoPlayGameResponse → List ℕ
encoding m = le_bytes 4 m.result ++ (le_bytes 8 m.game_id ++ le_bytes 4 m.count_friends)

pub MsgClientGetFriendsWhoPlayGameResponse-IsSerializable :
    IsSerializable MsgClientGetFriendsWhoPlayGameResponse IsWf new serialize deserialize 16
unfolding new serialize deserialize
MsgClientGetFriendsWhoPlayGameResponse-IsSerializable = record {
  new_is_wf = omega arith;
  encoding = encoding;
  writes = λ m.
      Writes-then (Writes-write 4 m.result)
        (Writes-then (Writes-write 8 m.game_id) (Writes-write 4 m.count_friends));
  parses = λ m h. Parses-bind _ (Parses-read 4 m.result h.0) (
      Parses-bind _ (Parses-read 8 m.game_id h.1)
        (Parses-last _ (Parses-read 4 m.count_friends h.2)));
  size_lem = λ m h. omega (
    arith,
    length-append (le_bytes 4 m.result) (le_bytes 8 m.game_id ++ le_bytes 4 m.count_friends),
    length-le_bytes 4 m.result,
    length-append (le_bytes 8 m.game_id) (le_bytes 4 m.count_friends),
    length-le_bytes 8 m.game_id,
    length-le_bytes 4 m.count_friends,
  );
  consumes = Consumes-bind _ (Consumes-read 4 (omega arith)) (λ result.
      Consumes-bind _ (Consumes-read 8 (omega arith))
        (λ game_id. Consumes-last _ (Consumes-read 4 (omega arith))));
}

abbrev pub class : SerializableClass
class = record {
  Body = MsgClientGetFriendsWhoPlayGameResponse;
  IsWf = IsWf;
  new = new;
  serialize = serialize;
  deserialize = deserialize;
  size = 16;
  laws = MsgClientGetFriendsWhoPlayGameResponse-IsSerializable;
}
