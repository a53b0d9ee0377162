-- ===== src/Internal/MsgClientOgsBeginSessionResponse.antt =====
-- `struct MsgClientOGSBeginSessionResponse` of include/steamclient/types/generated/SteamLanguageInternal.hpp: its fields,
-- its default constructor, `Serialize` and `Deserialize`. Every integer is its bit pattern.
use steam_min_cpp.Prelude.{ℕ, ◌^◌, ◌<◌, List, ◌++◌, length-append, arith}
use steam_min_cpp.Stream.{M, ◌>>=◌, ◌>>◌, pure, write, read}
use steam_min_cpp.Stream.Bytes.{le_bytes, length-le_bytes}
use steam_min_cpp.Stream.Laws.{
  Writes-write, Writes-then, Parses-read, Parses-bind, Parses-last, Consumes-read, Consumes-bind,
  Consumes-last,
}
use steam_min_cpp.Internal.Serializable.{IsSerializable, SerializableClass}
use steam_min_cpp.Enums.EMsg
use steam_min_cpp.Enums.EResult

pub record MsgClientOgsBeginSessionResponse : Type 0 where
  pub result : ℕ
  pub collecting_any : ℕ
  pub collecting_details : ℕ
  pub session_id : ℕ

unfoldable pub new : MsgClientOgsBeginSessionResponse
new = record {
  result = EResult.invalid;
  collecting_any = 0;
  collecting_details = 0;
  session_id = 0;
}

unfoldable pub get_emsg : MsgClientOgsBeginSessionResponse → ℕ
get_emsg m = EMsg.client_ogs_begin_session_response

unfoldable pub serialize : MsgClientOgsBeginSessionResponse → M (Unit {0})
serialize m = do
  write 4 m.result
  write 1 m.collecting_any
  write 1 m.collecting_details
  write 8 m.session_id

unfoldable pub deserialize : M MsgClientOgsBeginSessionResponse
deserialize = do
  result ← read 4
  collecting_any ← read 1
  collecting_details ← read 1
  session_id ← read 8
  pure (record {
    result = result;
    collecting_any = collecting_any;
    collecting_details = collecting_details;
    session_id = session_id;
  })

-- Each field is a value of its type.
abbrev pub IsWf : MsgClientOgsBeginSessionResponse → Type 0
IsWf m =
    (m.result < 2 ^ 32)
    × (m.collecting_any < 2 ^ 8)
    × (m.collecting_details < 2 ^ 8)
    × (m.session_id < 2 ^ 64)

abbrev encoding : MsgClientOgsBeginSessionResponse → List ℕ
encoding m =
    le_bytes 4 m.result
    ++ (le_bytes 1 m.collecting_any ++ (le_bytes 1 m.collecting_details ++ le_bytes 8 m.session_id))

pub MsgClientOgsBeginSessionResponse-IsSerializable :
    IsSerializable MsgClientOgsBeginSessionResponse IsWf new serialize deserialize 14
unfolding new serialize deserialize
MsgClientOgsBeginSessionResponse-IsSerializable = record {
  new_is_wf = omega arith;
  encoding = encoding;
  writes = λ m. Writes-then (Writes-write 4 m.result) (
      Writes-then (Writes-write 1 m.collecting_any)
        (Writes-then (Writes-write 1 m.collecting_details) (Writes-write 8 m.session_id)));
  parses = λ m h. Parses-bind _ (Parses-read 4 m.result h.0) (
      Parses-bind _ (Parses-read 1 m.collecting_any h.1) (
        Parses-bind _ (Parses-read 1 m.collecting_details h.2)
          (Parses-last _ (Parses-read 8 m.session_id h.3))));
  size_lem = λ m h. omega (
    arith,
    length-append (le_bytes 4 m.result) (
        le_bytes 1 m.collecting_any
        ++ (le_bytes 1 m.collecting_details ++ le_bytes 8 m.session_id)),
    length-le_bytes 4 m.result,
    length-append (le_bytes 1 m.collecting_any)
        (le_bytes 1 m.collecting_details ++ le_bytes 8 m.session_id),
    length-le_bytes 1 m.collecting_any,
    length-append (le_bytes 1 m.collecting_details) (le_bytes 8 m.session_id),
    length-le_bytes 1 m.collecting_details,
    length-le_bytes 8 m.session_id,
  );
  consumes = Consumes-bind _ (Consumes-read 4 (omega arith)) (λ result.
      Consumes-bind _ (Consumes-read 1 (omega arith)) (λ collecting_any.
        Consumes-bind _ (Consumes-read 1 (omega arith))
          (λ collecting_details. Consumes-last _ (Consumes-read 8 (omega arith)))));
}

abbrev pub class : SerializableClass
class = record {
  Body = MsgClientOgsBeginSessionResponse;
  IsWf = IsWf;
  new = new;
  serialize = serialize;
  deserialize = deserialize;
  size = 14;
  laws = MsgClientOgsBeginSessionResponse-IsSerializable;
}
