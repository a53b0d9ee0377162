-- ===== src/Internal/MsgClientOgsEndSession.antt =====
-- `struct MsgClientOGSEndSession` of include/steamclient/types/generated/SteamLanguageInternal.hpp: its fields,
-- its default constructor, `Serialize` and `Deserialize`. Every integer is its bit pattern.
use steam_min_cpp.Prelude.{ℕ, ◌^◌, ◌<◌, List, ◌++◌, length-append, arith}
use steam_min_cpp.Stream.{M, ◌>>=◌, ◌>>◌, pure, write, read}
use steam_min_cpp.Stream.Bytes.{le_bytes, length-le_bytes}
use steam_min_cpp.Stream.Laws.{
  Writes-write, Writes-then, Parses-read, Parses-bind, Parses-last, Consumes-read, Consumes-bind,
  Consumes-last,
}
use steam_min_cpp.Internal.Serializable.{IsSerializable, SerializableClass}
use steam_min_cpp.Enums.EMsg

pub record MsgClientOgsEndSession : Type 0 where
  pub session_id : ℕ
  pub time_ended : ℕ
  pub reason_code : ℕ
  pub count_attributes : ℕ

unfoldable pub new : MsgClientOgsEndSession
new = record { session_id = 0; time_ended = 0; reason_code = 0; count_attributes = 0 }

unfoldable pub get_emsg : MsgClientOgsEndSession → ℕ
get_emsg m = EMsg.client_ogs_end_session

unfoldable pub serialize : MsgClientOgsEndSession → M (Unit {0})
serialize m = do
  write 8 m.session_id
  write 4 m.time_ended
  write 4 m.reason_code
  write 4 m.count_attributes

unfoldable pub deserialize : M MsgClientOgsEndSession
deserialize = do
  session_id ← read 8
  time_ended ← read 4
  reason_code ← read 4
  count_attributes ← read 4
  pure (record {
    session_id = session_id;
    time_ended = time_ended;
    reason_code = reason_code;
    count_attributes = count_attributes;
  })

-- Each field is a value of its type.
abbrev pub IsWf : MsgClientOgsEndSession → Type 0
IsWf m =
    (m.session_id < 2 ^ 64)
    × (m.time_ended < 2 ^ 32)
    × (m.reason_code < 2 ^ 32)
    × (m.count_attributes < 2 ^ 32)

abbrev encoding : MsgClientOgsEndSession → List ℕ
encoding m =
    le_bytes 8 m.session_id
    ++ (le_bytes 4 m.time_ended ++ (le_bytes 4 m.reason_code ++ le_bytes 4 m.count_attributes))

pub MsgClientOgsEndSession-IsSerializable :
    IsSerializable MsgClientOgsEndSession IsWf new serialize deserialize 20
unfolding new serialize deserialize
MsgClientOgsEndSession-IsSerializable = record {
  new_is_wf = omega arith;
  encoding = encoding;
  writes = λ m. Writes-then (Writes-write 8 m.session_id) (
      Writes-then (Writes-write 4 m.time_ended)
        (Writes-then (Writes-write 4 m.reason_code) (Writes-write 4 m.count_attributes)));
  parses = λ m h. Parses-bind _ (Parses-read 8 m.session_id h.0) (
      Parses-bind _ (Parses-read 4 m.time_ended h.1) (
        Parses-bind _ (Parses-read 4 m.reason_code h.2)
          (Parses-last _ (Parses-read 4 m.count_attributes h.3))));
  size_lem = λ m h. omega (
    arith,
    length-append (le_bytes 8 m.session_id)
        (le_bytes 4 m.time_ended ++ (le_bytes 4 m.reason_code ++ le_bytes 4 m.count_attributes)),
    length-le_bytes 8 m.session_id,
    length-append (le_bytes 4 m.time_ended)
        (le_bytes 4 m.reason_code ++ le_bytes 4 m.count_attributes),
    length-le_bytes 4 m.time_ended,
    length-append (le_bytes 4 m.reason_code) (le_bytes 4 m.count_attributes),
    length-le_bytes 4 m.reason_code,
    length-le_bytes 4 m.count_attributes,
  );
  consumes = Consumes-bind _ (Consumes-read 8 (omega arith)) (λ session_id.
      Consumes-bind _ (Consumes-read 4 (omega arith)) (λ time_ended.
        Consumes-bind _ (Consumes-read 4 (omega arith))
          (λ reason_code. Consumes-last _ (Consumes-read 4 (omega arith)))));
}

abbrev pub class : SerializableClass
class = record {
  Body = MsgClientOgsEndSession;
  IsWf = IsWf;
  new = new;
  serialize = serialize;
  deserialize = deserialize;
  size = 20;
  laws = MsgClientOgsEndSession-IsSerializable;
}
