-- ===== src/Internal/MsgClientSetIgnoreFriend.antt =====
-- `struct MsgClientSetIgnoreFriend` of include/steamclient/types/generated/SteamLanguageInternal.hpp: its fields,
-- its default constructor, `Serialize` and `Deserialize`. Every integer is its bit pattern.
use steam_min_cpp.Prelude.{ℕ, ◌^◌, ◌<◌, List, ◌++◌, length-append, arith}
use steam_min_cpp.Stream.{M, ◌>>=◌, ◌>>◌, pure, write, read}
use steam_min_cpp.Stream.Bytes.{le_bytes, length-le_bytes}
use steam_min_cpp.Stream.Laws.{
  Writes-write, Writes-then, Parses-read, Parses-bind, Parses-last, Consumes-read, Consumes-bind,
  Consumes-last,
}
use steam_min_cpp.Internal.Serializable.{IsSerializable, SerializableClass}
use steam_min_cpp.Enums.EMsg

pub record MsgClientSetIgnoreFriend : Type 0 where
  pub my_steam_id : ℕ
  pub steam_id_friend : ℕ
  pub ignore : ℕ

unfoldable pub new : MsgClientSetIgnoreFriend
new = record { my_steam_id = 0; steam_id_friend = 0; ignore = 0 }

unfoldable pub get_emsg : MsgClientSetIgnoreFriend → ℕ
get_emsg m = EMsg.client_set_ignore_friend

unfoldable pub serialize : MsgClientSetIgnoreFriend → M (Unit {0})
serialize m = do write 8 m.my_steam_id; write 8 m.steam_id_friend; write 1 m.ignore

unfoldable pub deserialize : M MsgClientSetIgnoreFriend
deserialize = do
  my_steam_id ← read 8
  steam_id_friend ← read 8
  ignore ← read 1
  pure (record { my_steam_id = my_steam_id; steam_id_friend = steam_id_friend; ignore = ignore })

-- Each field is a value of its type.
abbrev pub IsWf : MsgClientSetIgnoreFriend → Type 0
IsWf m = (m.my_steam_id < 2 ^ 64) × (m.steam_id_friend < 2 ^ 64) × (m.ignore < 2 ^ 8)

abbrev encoding : MsgClientSetIgnoreFriend → List ℕ
encoding m = le_bytes 8 m.my_steam_id ++ (le_bytes 8 m.steam_id_friend ++ le_bytes 1 m.ignore)

pub MsgClientSetIgnoreFriend-IsSerializable :
    IsSerializable MsgClientSetIgnoreFriend IsWf new serialize deserialize 17
unfolding new serialize deserialize
MsgClientSetIgnoreFriend-IsSerializable = record {
  new_is_wf = omega arith;
  encoding = encoding;
  writes = λ m.
      Writes-then (Writes-write 8 m.my_steam_id)
        (Writes-then (Writes-write 8 m.steam_id_friend) (Writes-write 1 m.ignore));
  parses = λ m h. Parses-bind _ (Parses-read 8 m.my_steam_id h.0) (
      Parses-bind _ (Parses-read 8 m.steam_id_friend h.1)
        (Parses-last _ (Parses-read 1 m.ignore h.2)));
  size_lem = λ m h. omega (
    arith,
    length-append (le_bytes 8 m.my_steam_id) (le_bytes 8 m.steam_id_friend ++ le_bytes 1 m.ignore),
    length-le_bytes 8 m.my_steam_id,
    length-append (le_bytes 8 m.steam_id_friend) (le_bytes 1 m.ignore),
    length-le_bytes 8 m.steam_id_friend,
    length-le_bytes 1 m.ignore,
  );
  consumes = Consumes-bind _ (Consumes-read 8 (omega arith)) (λ my_steam_id.
      Consumes-bind _ (Consumes-read 8 (omega arith))
        (λ steam_id_friend. Consumes-last _ (Consumes-read 1 (omega arith))));
}

abbrev pub class : SerializableClass
class = record {
  Body = MsgClientSetIgnoreFriend;
  IsWf = IsWf;
  new = new;
  serialize = serialize;
  deserialize = deserialize;
  size = 17;
  laws = MsgClientSetIgnoreFriend-IsSerializable;
}
