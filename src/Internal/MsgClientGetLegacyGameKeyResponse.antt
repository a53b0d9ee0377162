-- ===== src/Internal/MsgClientGetLegacyGameKeyResponse.antt =====
-- `struct MsgClientGetLegacyGameKeyResponse` of include/steamclient/types/generated/SteamLanguageInternal.hpp: its fields,
-- its default constructor, `Serialize` and `Deserialize`. Every integer is its bit pattern.
use steam_min_cpp.Prelude.{ℕ, ◌^◌, ◌<◌, List, ◌++◌, length, length-append, arith}
use steam_min_cpp.Stream.{M, ◌>>=◌, ◌>>◌, pure, write, read}
use steam_min_cpp.Stream.Bytes.{le_bytes, length-le_bytes}
use steam_min_cpp.Stream.Laws.{
  Writes-write, Writes-then, Parses-read, Parses-bind, Parses-last, Consumes-read, Consumes-bind,
  Consumes-last,
}
use steam_min_cpp.Internal.Serializable.{IsSerializable, SerializableClass}
use steam_min_cpp.Enums.EMsg
use steam_min_cpp.Enums.EResult

pub record MsgClientGetLegacyGameKeyResponse : Type 0 where
  pub app_id : ℕ
  pub result : ℕ
  pub length : ℕ

unfoldable pub new : MsgClientGetLegacyGameKeyResponse
new = record { app_id = 0; result = EResult.invalid; length = 0 }

unfoldable pub get_emsg : MsgClientGetLegacyGameKeyResponse → ℕ
get_emsg m = EMsg.client_get_legacy_game_key_response

unfoldable pub serialize : MsgClientGetLegacyGameKeyResponse → M (Unit {0})
serialize m = do write 4 m.app_id; write 4 m.result; write 4 m.length

unfoldable pub deserialize : M MsgClientGetLegacyGameKeyResponse
deserialize = do
  app_id ← read 4
  result ← read 4
  length ← read 4
  pure (record { app_id = app_id; result = result; length = length })

-- Each field is a value of its type.
abbrev pub IsWf : MsgClientGetLegacyGameKeyResponse → Type 0
IsWf m = (m.app_id < 2 ^ 32) × (m.result < 2 ^ 32) × (m.length < 2 ^ 32)

abbrev encoding : MsgClientGetLegacyGameKeyResponse → List ℕ
encoding m = le_bytes 4 m.app_id ++ (le_bytes 4 m.result ++ le_bytes 4 m.length)

pub MsgClientGetLegacyGameKeyResponse-IsSerializable :
    IsSerializable MsgClientGetLegacyGameKeyResponse IsWf new serialize deserialize 12
unfolding new serialize deserialize
MsgClientGetLegacyGameKeyResponse-IsSerializable = record {
  new_is_wf = omega arith;
  encoding = encoding;
  writes = λ m.
      Writes-then (Writes-write 4 m.app_id)
        (Writes-then (Writes-write 4 m.result) (Writes-write 4 m.length));
  parses = λ m h.
      Parses-bind _ (Parses-read 4 m.app_id h.0)
        (Parses-bind _ (Parses-read 4 m.result h.1) (Parses-last _ (Parses-read 4 m.length h.2)));
  size_lem = λ m h. omega (
    arith,
    length-append (le_bytes 4 m.app_id) (le_bytes 4 m.result ++ le_bytes 4 m.length),
    length-le_bytes 4 m.app_id,
    length-append (le_bytes 4 m.result) (le_bytes 4 m.length),
    length-le_bytes 4 m.result,
    length-le_bytes 4 m.length,
  );
  consumes = Consumes-bind _ (Consumes-read 4 (omega arith)) (λ app_id.
      Consumes-bind _ (Consumes-read 4 (omega arith))
        (λ result. Consumes-last _ (Consumes-read 4 (omega arith))));
}

abbrev pub class : SerializableClass
class = record {
  Body = MsgClientGetLegacyGameKeyResponse;
  IsWf = IsWf;
  new = new;
  serialize = serialize;
  deserialize = deserialize;
  size = 12;
  laws = MsgClientGetLegacyGameKeyResponse-IsSerializable;
}
