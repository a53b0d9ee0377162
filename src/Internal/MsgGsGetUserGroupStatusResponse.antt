-- ===== src/Internal/MsgGsGetUserGroupStatusResponse.antt =====
-- `struct MsgGSGetUserGroupStatusResponse` of include/steamclient/types/generated/SteamLanguageInternal.hpp: its fields,
-- its default constructor, `Serialize` and `Deserialize`. Every integer is its bit pattern.
use steam_min_cpp.Prelude.{ℕ, ◌^◌, ◌<◌, List, ◌++◌, length-append, arith}
use steam_min_cpp.Stream.{M, ◌>>=◌, ◌>>◌, pure, write, read}
use steam_min_cpp.Stream.Bytes.{le_bytes, length-le_bytes}
use steam_min_cpp.Stream.Laws.{
  Writes-write, Writes-then, Parses-read, Parses-bind, Parses-last, Consumes-read, Consumes-bind,
  Consumes-last,
}
use steam_min_cpp.Internal.Serializable.{IsSerializable, SerializableClass}
use steam_min_cpp.Enums.EClanRank
use steam_min_cpp.Enums.EClanRelationship
use steam_min_cpp.Enums.EMsg

pub record MsgGsGetUserGroupStatusResponse : Type 0 where
  pub steam_id_user : ℕ
  pub steam_id_group : ℕ
  pub clan_relationship : ℕ
  pub clan_rank : ℕ

unfoldable pub new : MsgGsGetUserGroupStatusResponse
new = record {
  steam_id_user = 0;
  steam_id_group = 0;
  clan_relationship = EClanRelationship.none;
  clan_rank = EClanRank.none;
}

unfoldable pub get_emsg : MsgGsGetUserGroupStatusResponse → ℕ
get_emsg m = EMsg.gs_get_user_group_status_response

unfoldable pub serialize : MsgGsGetUserGroupStatusResponse → M (Unit {0})
serialize m = do
  write 8 m.steam_id_user
  write 8 m.steam_id_group
  write 4 m.clan_relationship
  write 4 m.clan_rank

unfoldable pub deserialize : M MsgGsGetUserGroupStatusResponse
deserialize = do
  steam_id_user ← read 8
  steam_id_group ← read 8
  clan_relationship ← read 4
  clan_rank ← read 4
  pure (record {
    steam_id_user = steam_id_user;
    steam_id_group = steam_id_group;
    clan_relationship = clan_relationship;
    clan_rank = clan_rank;
  })

-- Each field is a value of its type.
abbrev pub IsWf : MsgGsGetUserGroupStatusResponse → Type 0
IsWf m =
    (m.steam_id_user < 2 ^ 64)
    × (m.steam_id_group < 2 ^ 64)
    × (m.clan_relationship < 2 ^ 32)
    × (m.clan_rank < 2 ^ 32)

abbrev encoding : MsgGsGetUserGroupStatusResponse → List ℕ
encoding m =
    le_bytes 8 m.steam_id_user
    ++ (le_bytes 8 m.steam_id_group ++ (le_bytes 4 m.clan_relationship ++ le_bytes 4 m.clan_rank))

pub MsgGsGetUserGroupStatusResponse-IsSerializable :
    IsSerializable MsgGsGetUserGroupStatusResponse IsWf new serialize deserialize 24
unfolding new serialize deserialize
MsgGsGetUserGroupStatusResponse-IsSerializable = record {
  new_is_wf = omega arith;
  encoding = encoding;
  writes = λ m. Writes-then (Writes-write 8 m.steam_id_user) (
      Writes-then (Writes-write 8 m.steam_id_group)
        (Writes-then (Writes-write 4 m.clan_relationship) (Writes-write 4 m.clan_rank)));
  parses = λ m h. Parses-bind _ (Parses-read 8 m.steam_id_user h.0) (
      Parses-bind _ (Parses-read 8 m.steam_id_group h.1) (
        Parses-bind _ (Parses-read 4 m.clan_relationship h.2)
          (Parses-last _ (Parses-read 4 m.clan_rank h.3))));
  size_lem = λ m h. omega (
    arith,
    length-append (le_bytes 8 m.steam_id_user)
        (le_bytes 8 m.steam_id_group ++ (le_bytes 4 m.clan_relationship ++ le_bytes 4 m.clan_rank)),
    length-le_bytes 8 m.steam_id_user,
    length-append (le_bytes 8 m.steam_id_group)
        (le_bytes 4 m.clan_relationship ++ le_bytes 4 m.clan_rank),
    length-le_bytes 8 m.steam_id_group,
    length-append (le_bytes 4 m.clan_relationship) (le_bytes 4 m.clan_rank),
    length-le_bytes 4 m.clan_relationship,
    length-le_bytes 4 m.clan_rank,
  );
  consumes = Consumes-bind _ (Consumes-read 8 (omega arith)) (λ steam_id_user.
      Consumes-bind _ (Consumes-read 8 (omega arith)) (λ steam_id_group.
        Consumes-bind _ (Consumes-read 4 (omega arith))
          (λ clan_relationship. Consumes-last _ (Consumes-read 4 (omega arith)))));
}

abbrev pub class : SerializableClass
class = record {
  Body = MsgGsGetUserGroupStatusResponse;
  IsWf = IsWf;
  new = new;
  serialize = serialize;
  deserialize = deserialize;
  size = 24;
  laws = MsgGsGetUserGroupStatusResponse-IsSerializable;
}
