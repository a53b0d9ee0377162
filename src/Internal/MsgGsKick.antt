-- ===== src/Internal/MsgGsKick.antt =====
-- `struct MsgGSKick` of include/steamclient/types/generated/SteamLanguageInternal.hpp: its fields,
-- its default constructor, `Serialize` and `Deserialize`. Every integer is its bit pattern.
use steam_min_cpp.Prelude.{ℕ, ◌^◌, ◌<◌, List, ◌++◌, length-append, arith}
use steam_min_cpp.Stream.{M, ◌>>=◌, ◌>>◌, pure, write, read}
use steam_min_cpp.Stream.Bytes.{le_bytes, length-le_bytes}
use steam_min_cpp.Stream.Laws.{
  Writes-write, Writes-then, Parses-read, Parses-bind, Parses-last, Consumes-read, Consumes-bind,
  Consumes-last,
}
use steam_min_cpp.Internal.Serializable.{IsSerializable, SerializableClass}
use steam_min_cpp.Enums.EDenyReason
use steam_min_cpp.Enums.EMsg

pub record MsgGsKick : Type 0 where
  pub steam_id : ℕ
  pub deny_reason : ℕ
  pub wait_til_map_change : ℕ

unfoldable pub new : MsgGsKick
new = record { steam_id = 0; deny_reason = EDenyReason.unknown; wait_til_map_change = 0 }

unfoldable pub get_emsg : MsgGsKick → ℕ
get_emsg m = EMsg.gs_kick

unfoldable pub serialize : MsgGsKick → M (Unit {0})
serialize m = do write 8 m.steam_id; write 4 m.deny_reason; write 4 m.wait_til_map_change

unfoldable pub deserialize : M MsgGsKick
deserialize = do
  steam_id ← read 8
  deny_reason ← read 4
  wait_til_map_change ← read 4
  pure (record {
    steam_id = steam_id;
    deny_reason = deny_reason;
    wait_til_map_change = wait_til_map_change;
  })

-- Each field is a value of its type.
abbrev pub IsWf : MsgGsKick → Type 0
IsWf m = (m.steam_id < 2 ^ 64) × (m.deny_reason < 2 ^ 32) × (m.wait_til_map_change < 2 ^ 32)

abbrev encoding : MsgGsKick → List ℕ
encoding m = le_bytes 8 m.steam_id ++ (le_bytes 4 m.deny_reason ++ le_bytes 4 m.wait_til_map_change)

pub MsgGsKick-IsSerializable : IsSerializable MsgGsKick IsWf new serialize deserialize 16
unfolding new serialize deserialize
MsgGsKick-IsSerializable = record {
  new_is_wf = omega arith;
  encoding = encoding;
  writes = λ m.
      Writes-then (Writes-write 8 m.steam_id)
        (Writes-then (Writes-write 4 m.deny_reason) (Writes-write 4 m.wait_til_map_change));
  parses = λ m h. Parses-bind _ (Parses-read 8 m.steam_id h.0) (
      Parses-bind _ (Parses-read 4 m.deny_reason h.1)
        (Parses-last _ (Parses-read 4 m.wait_til_map_change h.2)));
  size_lem = λ m h. omega (
    arith,
    length-append (le_bytes 8 m.steam_id)
        (le_bytes 4 m.deny_reason ++ le_bytes 4 m.wait_til_map_change),
    length-le_bytes 8 m.steam_id,
    length-append (le_bytes 4 m.deny_reason) (le_bytes 4 m.wait_til_map_change),
    length-le_bytes 4 m.deny_reason,
    length-le_bytes 4 m.wait_til_map_change,
  );
  consumes = Consumes-bind _ (Consumes-read 8 (omega arith)) (λ steam_id.
      Consumes-bind _ (Consumes-read 4 (omega arith))
        (λ deny_reason. Consumes-last _ (Consumes-read 4 (omega arith))));
}

abbrev pub class : SerializableClass
class = record {
  Body = MsgGsKick;
  IsWf = IsWf;
  new = new;
  serialize = serialize;
  deserialize = deserialize;
  size = 16;
  laws = MsgGsKick-IsSerializable;
}
