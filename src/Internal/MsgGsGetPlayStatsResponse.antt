-- ===== src/Internal/MsgGsGetPlayStatsResponse.antt =====
-- `struct MsgGSGetPlayStatsResponse` of include/steamclient/types/generated/SteamLanguageInternal.hpp: its fields,
-- its default constructor, `Serialize` and `Deserialize`. Every integer is its bit pattern.
use steam_min_cpp.Prelude.{ℕ, ◌^◌, ◌<◌, List, ◌++◌, length-append, arith}
use steam_min_cpp.Stream.{M, ◌>>=◌, ◌>>◌, pure, write, read}
use steam_min_cpp.Stream.Bytes.{le_bytes, length-le_bytes}
use steam_min_cpp.Stream.Laws.{
  Writes-write, Writes-then, Parses-read, Parses-bind, Parses-last, Consumes-read, Consumes-bind,
  Consumes-last,
}
use steam_min_cpp.Internal.Serializable.{IsSerializable, SerializableClass}
use steam_min_cpp.Enums.EMsg
use steam_min_cpp.Enums.EResult

pub record MsgGsGetPlayStatsResponse : Type 0 where
  pub result : ℕ
  pub rank : ℕ
  pub lifetime_connects : ℕ
  pub lifetime_minutes_played : ℕ

unfoldable pub new : MsgGsGetPlayStatsResponse
new = record {
  result = EResult.invalid;
  rank = 0;
  lifetime_connects = 0;
  lifetime_minutes_played = 0;
}

unfoldable pub get_emsg : MsgGsGetPlayStatsResponse → ℕ
get_emsg m = EMsg.gs_get_play_stats_response

unfoldable pub serialize : MsgGsGetPlayStatsResponse → M (Unit {0})
serialize m = do
  write 4 m.result
  write 4 m.rank
  write 4 m.lifetime_connects
  write 4 m.lifetime_minutes_played

unfoldable pub deserialize : M MsgGsGetPlayStatsResponse
deserialize = do
  result ← read 4
  rank ← read 4
  lifetime_connects ← read 4
  lifetime_minutes_played ← read 4
  pure (record {
    result = result;
    rank = rank;
    lifetime_connects = lifetime_connects;
    lifetime_minutes_played = lifetime_minutes_played;
  })

-- Each field is a value of its type.
abbrev pub IsWf : MsgGsGetPlayStatsResponse → Type 0
IsWf m =
    (m.result < 2 ^ 32)
    × (m.rank < 2 ^ 32)
    × (m.lifetime_connects < 2 ^ 32)
    × (m.lifetime_minutes_played < 2 ^ 32)

abbrev encoding : MsgGsGetPlayStatsResponse → List ℕ
encoding m =
    le_bytes 4 m.result
    ++ (le_bytes 4 m.rank
        ++ (le_bytes 4 m.lifetime_connects ++ le_bytes 4 m.lifetime_minutes_played))

pub MsgGsGetPlayStatsResponse-IsSerializable :
    IsSerializable MsgGsGetPlayStatsResponse IsWf new serialize deserialize 16
unfolding new serialize deserialize
MsgGsGetPlayStatsResponse-IsSerializable = record {
  new_is_wf = omega arith;
  encoding = encoding;
  writes = λ m. Writes-then (Writes-write 4 m.result) (
      Writes-then (Writes-write 4 m.rank) (
        Writes-then (Writes-write 4 m.lifetime_connects)
          (Writes-write 4 m.lifetime_minutes_played)));
  parses = λ m h. Parses-bind _ (Parses-read 4 m.result h.0) (
      Parses-bind _ (Parses-read 4 m.rank h.1) (
        Parses-bind _ (Parses-read 4 m.lifetime_connects h.2)
          (Parses-last _ (Parses-read 4 m.lifetime_minutes_played h.3))));
  size_lem = λ m h. omega (
    arith,
    length-append (le_bytes 4 m.result) (
        le_bytes 4 m.rank
        ++ (le_bytes 4 m.lifetime_connects ++ le_bytes 4 m.lifetime_minutes_played)),
    length-le_bytes 4 m.result,
    length-append (le_bytes 4 m.rank)
        (le_bytes 4 m.lifetime_connects ++ le_bytes 4 m.lifetime_minutes_played),
    length-le_bytes 4 m.rank,
    length-append (le_bytes 4 m.lifetime_connects) (le_bytes 4 m.lifetime_minutes_played),
    length-le_bytes 4 m.lifetime_connects,
    length-le_bytes 4 m.lifetime_minutes_played,
  );
  consumes = Consumes-bind _ (Consumes-read 4 (omega arith)) (λ result.
      Consumes-bind _ (Consumes-read 4 (omega arith)) (λ rank.
        Consumes-bind _ (Consumes-read 4 (omega arith))
          (λ lifetime_connects. Consumes-last _ (Consumes-read 4 (omega arith)))));
}

abbrev pub class : SerializableClass
class = record {
  Body = MsgGsGetPlayStatsResponse;
  IsWf = IsWf;
  new = new;
  serialize = serialize;
  deserialize = deserialize;
  size = 16;
  laws = MsgGsGetPlayStatsResponse-IsSerializable;
}
