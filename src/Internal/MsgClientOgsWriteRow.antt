-- ===== src/Internal/MsgClientOgsWriteRow.antt =====
-- `struct MsgClientOGSWriteRow` of include/steamclient/types/generated/SteamLanguageInternal.hpp: its fields,
-- its default constructor, `Serialize` and `Deserialize`. Every integer is its bit pattern.
use steam_min_cpp.Prelude.{ℕ, ◌^◌, ◌<◌, List, ◌++◌, length-append, arith}
use steam_min_cpp.Stream.{M, ◌>>=◌, ◌>>◌, pure, write, read}
use steam_min_cpp.Stream.Bytes.{le_bytes, length-le_bytes}
use steam_min_cpp.Stream.Laws.{
  Writes-write, Writes-then, Parses-read, Parses-bind, Parses-last, Consumes-read, Consumes-bind,
  Consumes-last,
}
use steam_min_cpp.Internal.Serializable.{IsSerializable, SerializableClass}
use steam_min_cpp.Enums.EMsg

pub record MsgClientOgsWriteRow : Type 0 where
  pub session_id : ℕ
  pub count_attributes : ℕ

unfoldable pub new : MsgClientOgsWriteRow
new = record { session_id = 0; count_attributes = 0 }

unfoldable pub get_emsg : MsgClientOgsWriteRow → ℕ
get_emsg m = EMsg.client_ogs_write_row

unfoldable pub serialize : MsgClientOgsWriteRow → M (Unit {0})
serialize m = do write 8 m.session_id; write 4 m.count_attributes

unfoldable pub deserialize : M MsgClientOgsWriteRow
deserialize = do
  session_id ← read 8
  count_attributes ← read 4
  pure (record { session_id = session_id; count_attributes = count_attributes })

-- Each field is a value of its type.
abbrev pub IsWf : MsgClientOgsWriteRow → Type 0
IsWf m = (m.session_id < 2 ^ 64) × (m.count_attributes < 2 ^ 32)

abbrev encoding : MsgClientOgsWriteRow → List ℕ
encoding m = le_bytes 8 m.session_id ++ le_bytes 4 m.count_attributes

pub MsgClientOgsWriteRow-IsSerializable :
    IsSerializable MsgClientOgsWriteRow IsWf new serialize deserialize 12
unfolding new serialize deserialize
MsgClientOgsWriteRow-IsSerializable = record {
  new_is_wf = omega arith;
  encoding = encoding;
  writes = λ m. Writes-then (Writes-write 8 m.session_id) (Writes-write 4 m.count_attributes);
  parses = λ m h.
      Parses-bind _ (Parses-read 8 m.session_id h.0)
        (Parses-last _ (Parses-read 4 m.count_attributes h.1));
  size_lem = λ m h. omega (
    arith,
    length-append (le_bytes 8 m.session_id) (le_bytes 4 m.count_attributes),
    length-le_bytes 8 m.session_id,
    length-le_bytes 4 m.count_attributes,
  );
  consumes =
      Consumes-bind _ (Consumes-read 8 (omega arith))
        (λ session_id. Consumes-last _ (Consumes-read 4 (omega arith)));
}

abbrev pub class : SerializableClass
class = record {
  Body = MsgClientOgsWriteRow;
  IsWf = IsWf;
  new = new;
  serialize = serialize;
  deserialize = deserialize;
  size = 12;
  laws = MsgClientOgsWriteRow-IsSerializable;
}
