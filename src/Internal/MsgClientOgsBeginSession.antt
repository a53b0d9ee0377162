-- ===== src/Internal/MsgClientOgsBeginSession.antt =====
-- `struct MsgClientOGSBeginSession` of include/steamclient/types/generated/SteamLanguageInternal.hpp: its fields,
-- its default constructor, `Serialize` and `Deserialize`. Every integer is its bit pattern.
use steam_min_cpp.Prelude.{ℕ, ◌^◌, ◌<◌, List, ◌++◌, length-append, arith}
use steam_min_cpp.Stream.{M, ◌>>=◌, ◌>>◌, pure, write, read}
use steam_min_cpp.Stream.Bytes.{le_bytes, length-le_bytes}
use steam_min_cpp.Stream.Laws.{
  Writes-write, Writes-then, Parses-read, Parses-bind, Parses-last, Consumes-read, Consumes-bind,
  Consumes-last,
}
use steam_min_cpp.Internal.Serializable.{IsSerializable, SerializableClass}
use steam_min_cpp.Enums.EMsg

pub record MsgClientOgsBeginSession : Type 0 where
  pub account_type : ℕ
  pub account_id : ℕ
  pub app_id : ℕ
  pub time_started : ℕ

unfoldable pub new : MsgClientOgsBeginSession
new = record { account_type = 0; account_id = 0; app_id = 0; time_started = 0 }

unfoldable pub get_emsg : MsgClientOgsBeginSession → ℕ
get_emsg m = EMsg.client_ogs_begin_session

unfoldable pub serialize : MsgClientOgsBeginSession → M (Unit {0})
serialize m = do
  write 1 m.account_type
  write 8 m.account_id
  write 4 m.app_id
  write 4 m.time_started

unfoldable pub deserialize : M MsgClientOgsBeginSession
deserialize = do
  account_type ← read 1
  account_id ← read 8
  app_id ← read 4
  time_started ← read 4
  pure (record {
    account_type = account_type;
    account_id = account_id;
    app_id = app_id;
    time_started = time_started;
  })

-- Each field is a value of its type.
abbrev pub IsWf : MsgClientOgsBeginSession → Type 0
IsWf m =
    (m.account_type < 2 ^ 8)
    × (m.account_id < 2 ^ 64)
    × (m.app_id < 2 ^ 32)
    × (m.time_started < 2 ^ 32)

abbrev encoding : MsgClientOgsBeginSession → List ℕ
encoding m =
    le_bytes 1 m.account_type
    ++ (le_bytes 8 m.account_id ++ (le_bytes 4 m.app_id ++ le_bytes 4 m.time_started))

pub MsgClientOgsBeginSession-IsSerializable :
    IsSerializable MsgClientOgsBeginSession IsWf new serialize deserialize 17
unfolding new serialize deserialize
MsgClientOgsBeginSession-IsSerializable = record {
  new_is_wf = omega arith;
  encoding = encoding;
  writes = λ m. Writes-then (Writes-write 1 m.account_type) (
      Writes-then (Writes-write 8 m.account_id)
        (Writes-then (Writes-write 4 m.app_id) (Writes-write 4 m.time_started)));
  parses = λ m h. Parses-bind _ (Parses-read 1 m.account_type h.0) (
      Parses-bind _ (Parses-read 8 m.account_id h.1) (
        Parses-bind _ (Parses-read 4 m.app_id h.2)
          (Parses-last _ (Parses-read 4 m.time_started h.3))));
  size_lem = λ m h. omega (
    arith,
    length-append (le_bytes 1 m.account_type)
        (le_bytes 8 m.account_id ++ (le_bytes 4 m.app_id ++ le_bytes 4 m.time_started)),
    length-le_bytes 1 m.account_type,
    length-append (le_bytes 8 m.account_id) (le_bytes 4 m.app_id ++ le_bytes 4 m.time_started),
    length-le_bytes 8 m.account_id,
    length-append (le_bytes 4 m.app_id) (le_bytes 4 m.time_started),
    length-le_bytes 4 m.app_id,
    length-le_bytes 4 m.time_started,
  );
  consumes = Consumes-bind _ (Consumes-read 1 (omega arith)) (λ account_type.
      Consumes-bind _ (Consumes-read 8 (omega arith)) (λ account_id.
        Consumes-bind _ (Consumes-read 4 (omega arith))
          (λ app_id. Consumes-last _ (Consumes-read 4 (omega arith)))));
}

abbrev pub class : SerializableClass
class = record {
  Body = MsgClientOgsBeginSession;
  IsWf = IsWf;
  new = new;
  serialize = serialize;
  deserialize = deserialize;
  size = 17;
  laws = MsgClientOgsBeginSession-IsSerializable;
}
