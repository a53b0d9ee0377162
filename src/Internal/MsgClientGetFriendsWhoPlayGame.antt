-- ===== src/Internal/MsgClientGetFriendsWhoPlayGame.antt =====
-- `struct MsgClientGetFriendsWhoPlayGame` of include/steamclient/types/generated/SteamLanguageInternal.hpp: its fields,
-- its default constructor, `Serialize` and `Deserialize`. Every integer is its bit pattern.
use steam_min_cpp.Prelude.{ℕ, ◌^◌, ◌<◌, List, arith}
use steam_min_cpp.Stream.{M, ◌>>=◌, pure, write, read}
use steam_min_cpp.Stream.Bytes.{le_bytes, length-le_bytes}
use steam_min_cpp.Stream.Laws.{Writes-write, Parses-read, Parses-last, Consumes-read, Consumes-last}
use steam_min_cpp.Internal.Serializable.{IsSerializable, SerializableClass}
use steam_min_cpp.Enums.EMsg

pub record MsgClientGetFriendsWhoPlayGame : Type 0 where
  pub game_id : ℕ

unfoldable pub new : MsgClientGetFriendsWhoPlayGame
new = record { game_id = 0 }

unfoldable pub get_emsg : MsgClientGetFriendsWhoPlayGame → ℕ
get_emsg m = EMsg.client_get_friends_who_play_game

unfoldable pub serialize : MsgClientGetFriendsWhoPlayGame → M (Unit {0})
serialize m = write 8 m.game_id

unfoldable pub deserialize : M MsgClientGetFriendsWhoPlayGame
deserialize = do game_id ← read 8; pure (record { game_id = game_id })

-- Each field is a value of its type.
abbrev pub IsWf : MsgClientGetFriendsWhoPlayGame → Type 0
IsWf m = (m.game_id < 2 ^ 64)

abbrev encoding : MsgClientGetFriendsWhoPlayGame → List ℕ
encoding m = le_bytes 8 m.game_id

pub MsgClientGetFriendsWhoPlayGame-IsSerializable :
    IsSerializable MsgClientGetFriendsWhoPlayGame IsWf new serialize deserialize 8
unfolding new serialize deserialize
MsgClientGetFriendsWhoPlayGame-IsSerializable = record {
  new_is_wf = omega arith;
  encoding = encoding;
  writes = λ m. Writes-write 8 m.game_id;
  parses = λ m h. Parses-last _ (Parses-read 8 m.game_id h);
  size_lem = λ m h. omega (arith, length-le_bytes 8 m.game_id);
  consumes = Consumes-last _ (Consumes-read 8 (omega arith));
}

abbrev pub class : SerializableClass
class = record {
  Body = MsgClientGetFriendsWhoPlayGame;
  IsWf = IsWf;
  new = new;
  serialize = serialize;
  deserialize = deserialize;
  size = 8;
  laws = MsgClientGetFriendsWhoPlayGame-IsSerializable;
}
