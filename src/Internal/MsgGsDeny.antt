-- ===== src/Internal/MsgGsDeny.antt =====
-- `struct MsgGSDeny` of include/steamclient/types/generated/SteamLanguageInternal.hpp: its fields,
-- its default constructor, `Serialize` and `Deserialize`. Every integer is its bit pattern.
use steam_min_cpp.Prelude.{ℕ, ◌^◌, ◌<◌, List, ◌++◌, length-append, arith}
use steam_min_cpp.Stream.{M, ◌>>=◌, ◌>>◌, pure, write, read}
use steam_min_cpp.Stream.Bytes.{le_bytes, length-le_bytes}
use steam_min_cpp.Stream.Laws.{
  Writes-write, Writes-then, Parses-read, Parses-bind, Parses-last, Consumes-read, Consumes-bind,
  Consumes-last,
}
use steam_min_cpp.Internal.Serializable.{IsSerializable, SerializableClass}
use steam_min_cpp.Enums.EDenyReason
use steam_min_cpp.Enums.EMsg

pub record MsgGsDeny : Type 0 where
  pub steam_id : ℕ
  pub deny_reason : ℕ

unfoldable pub new : MsgGsDeny
new = record { steam_id = 0; deny_reason = EDenyReason.unknown }

unfoldable pub get_emsg : MsgGsDeny → ℕ
get_emsg m = EMsg.gs_deny

unfoldable pub serialize : MsgGsDeny → M (Unit {0})
serialize m = do write 8 m.steam_id; write 4 m.deny_reason

unfoldable pub deserialize : M MsgGsDeny
deserialize = do
  steam_id ← read 8
  deny_reason ← read 4
  pure (record { steam_id = steam_id; deny_reason = deny_reason })

-- Each field is a value of its type.
abbrev pub IsWf : MsgGsDeny → Type 0
IsWf m = (m.steam_id < 2 ^ 64) × (m.deny_reason < 2 ^ 32)

abbrev encoding : MsgGsDeny → List ℕ
encoding m = le_bytes 8 m.steam_id ++ le_bytes 4 m.deny_reason

pub MsgGsDeny-IsSerializable : IsSerializable MsgGsDeny IsWf new serialize deserialize 12
unfolding new serialize deserialize
MsgGsDeny-IsSerializable = record {
  new_is_wf = omega arith;
  encoding = encoding;
  writes = λ m. Writes-then (Writes-write 8 m.steam_id) (Writes-write 4 m.deny_reason);
  parses = λ m h.
      Parses-bind _ (Parses-read 8 m.steam_id h.0)
        (Parses-last _ (Parses-read 4 m.deny_reason h.1));
  size_lem = λ m h. omega (
    arith,
    length-append (le_bytes 8 m.steam_id) (le_bytes 4 m.deny_reason),
    length-le_bytes 8 m.steam_id,
    length-le_bytes 4 m.deny_reason,
  );
  consumes =
      Consumes-bind _ (Consumes-read 8 (omega arith))
        (λ steam_id. Consumes-last _ (Consumes-read 4 (omega arith)));
}

abbrev pub class : SerializableClass
class = record {
  Body = MsgGsDeny;
  IsWf = IsWf;
  new = new;
  serialize = serialize;
  deserialize = deserialize;
  size = 12;
  laws = MsgGsDeny-IsSerializable;
}
