-- ===== src/Internal/MsgGsGetUserGroupStatus.antt =====
-- `struct MsgGSGetUserGroupStatus` of include/steamclient/types/generated/SteamLanguageInternal.hpp: its fields,
-- its default constructor, `Serialize` and `Deserialize`. Every integer is its bit pattern.
use steam_min_cpp.Prelude.{ℕ, ◌^◌, ◌<◌, List, ◌++◌, length-append, arith}
use steam_min_cpp.Stream.{M, ◌>>=◌, ◌>>◌, pure, write, read}
use steam_min_cpp.Stream.Bytes.{le_bytes, length-le_bytes}
use steam_min_cpp.Stream.Laws.{
  Writes-write, Writes-then, Parses-read, Parses-bind, Parses-last, Consumes-read, Consumes-bind,
  Consumes-last,
}
use steam_min_cpp.Internal.Serializable.{IsSerializable, SerializableClass}
use steam_min_cpp.Enums.EMsg

pub record MsgGsGetUserGroupStatus : Type 0 where
  pub steam_id_user : ℕ
  pub steam_id_group : ℕ

unfoldable pub new : MsgGsGetUserGroupStatus
new = record { steam_id_user = 0; steam_id_group = 0 }

unfoldable pub get_emsg : MsgGsGetUserGroupStatus → ℕ
get_emsg m = EMsg.gs_get_user_group_status

unfoldable pub serialize : MsgGsGetUserGroupStatus → M (Unit {0})
serialize m = do write 8 m.steam_id_user; write 8 m.steam_id_group

unfoldable pub deserialize : M MsgGsGetUserGroupStatus
deserialize = do
  steam_id_user ← read 8
  steam_id_group ← read 8
  pure (record { steam_id_user = steam_id_user; steam_id_group = steam_id_group })

-- Each field is a value of its type.
abbrev pub IsWf : MsgGsGetUserGroupStatus → Type 0
IsWf m = (m.steam_id_user < 2 ^ 64) × (m.steam_id_group < 2 ^ 64)

abbrev encoding : MsgGsGetUserGroupStatus → List ℕ
encoding m = le_bytes 8 m.steam_id_user ++ le_bytes 8 m.steam_id_group

pub MsgGsGetUserGroupStatus-IsSerializable :
    IsSerializable MsgGsGetUserGroupStatus IsWf new serialize deserialize 16
unfolding new serialize deserialize
MsgGsGetUserGroupStatus-IsSerializable = record {
  new_is_wf = omega arith;
  encoding = encoding;
  writes = λ m. Writes-then (Writes-write 8 m.steam_id_user) (Writes-write 8 m.steam_id_group);
  parses = λ m h.
      Parses-bind _ (Parses-read 8 m.steam_id_user h.0)
        (Parses-last _ (Parses-read 8 m.steam_id_group h.1));
  size_lem = λ m h. omega (
    arith,
    length-append (le_bytes 8 m.steam_id_user) (le_bytes 8 m.steam_id_group),
    length-le_bytes 8 m.steam_id_user,
    length-le_bytes 8 m.steam_id_group,
  );
  consumes =
      Consumes-bind _ (Consumes-read 8 (omega arith))
        (λ steam_id_user. Consumes-last _ (Consumes-read 8 (omega arith)));
}

abbrev pub class : SerializableClass
class = record {
  Body = MsgGsGetUserGroupStatus;
  IsWf = IsWf;
  new = new;
  serialize = serialize;
  deserialize = deserialize;
  size = 16;
  laws = MsgGsGetUserGroupStatus-IsSerializable;
}
