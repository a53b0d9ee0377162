-- ===== src/Internal/MsgClientLoggedOff.antt =====
-- `struct MsgClientLoggedOff` of include/steamclient/types/generated/SteamLanguageInternal.hpp: its fields,
-- its default constructor, `Serialize` and `Deserialize`. Every integer is its bit pattern.
use steam_min_cpp.Prelude.{ℕ, ◌^◌, ◌<◌, List, ◌++◌, length-append, arith}
use steam_min_cpp.Stream.{M, ◌>>=◌, ◌>>◌, pure, write, read}
use steam_min_cpp.Stream.Bytes.{le_bytes, length-le_bytes}
use steam_min_cpp.Stream.Laws.{
  Writes-write, Writes-then, Parses-read, Parses-bind, Parses-last, Consumes-read, Consumes-bind,
  Consumes-last,
}
use steam_min_cpp.Internal.Serializable.{IsSerializable, SerializableClass}
use steam_min_cpp.Enums.EMsg
use steam_min_cpp.Enums.EResult

pub record MsgClientLoggedOff : Type 0 where
  pub result : ℕ
  pub sec_min_reconnect_hint : ℕ
  pub sec_max_reconnect_hint : ℕ

unfoldable pub new : MsgClientLoggedOff
new = record { result = EResult.invalid; sec_min_reconnect_hint = 0; sec_max_reconnect_hint = 0 }

unfoldable pub get_emsg : MsgClientLoggedOff → ℕ
get_emsg m = EMsg.client_logged_off

unfoldable pub serialize : MsgClientLoggedOff → M (Unit {0})
serialize m = do
  write 4 m.result
  write 4 m.sec_min_reconnect_hint
  write 4 m.sec_max_reconnect_hint

unfoldable pub deserialize : M MsgClientLoggedOff
deserialize = do
  result ← read 4
  sec_min_reconnect_hint ← read 4
  sec_max_reconnect_hint ← read 4
  pure (record {
    result = result;
    sec_min_reconnect_hint = sec_min_reconnect_hint;
    sec_max_reconnect_hint = sec_max_reconnect_hint;
  })

-- Each field is a value of its type.
abbrev pub IsWf : MsgClientLoggedOff → Type 0
IsWf m =
    (m.result < 2 ^ 32) × (m.sec_min_reconnect_hint < 2 ^ 32) × (m.sec_max_reconnect_hint < 2 ^ 32)

abbrev encoding : MsgClientLoggedOff → List ℕ
encoding m =
    le_bytes 4 m.result
    ++ (le_bytes 4 m.sec_min_reconnect_hint ++ le_bytes 4 m.sec_max_reconnect_hint)

pub MsgClientLoggedOff-IsSerializable :
    IsSerializable MsgClientLoggedOff IsWf new serialize deserialize 12
unfolding new serialize deserialize
MsgClientLoggedOff-IsSerializable = record {
  new_is_wf = omega arith;
  encoding = encoding;
  writes = λ m. Writes-then (Writes-write 4 m.result) (
      Writes-then (Writes-write 4 m.sec_min_reconnect_hint)
        (Writes-write 4 m.sec_max_reconnect_hint));
  parses = λ m h. Parses-bind _ (Parses-read 4 m.result h.0) (
      Parses-bind _ (Parses-read 4 m.sec_min_reconnect_hint h.1)
        (Parses-last _ (Parses-read 4 m.sec_max_reconnect_hint h.2)));
  size_lem = λ m h. omega (
    arith,
    length-append (le_bytes 4 m.result)
        (le_bytes 4 m.sec_min_reconnect_hint ++ le_bytes 4 m.sec_max_reconnect_hint),
    length-le_bytes 4 m.result,
    length-append (le_bytes 4 m.sec_min_reconnect_hint) (le_bytes 4 m.sec_max_reconnect_hint),
    length-le_bytes 4 m.sec_min_reconnect_hint,
    length-le_bytes 4 m.sec_max_reconnect_hint,
  );
  consumes = Consumes-bind _ (Consumes-read 4 (omega arith)) (λ result.
      Consumes-bind _ (Consumes-read 4 (omega arith))
        (λ sec_min_reconnect_hint. Consumes-last _ (Consumes-read 4 (omega arith))));
}

abbrev pub class : SerializableClass
class = record {
  Body = MsgClientLoggedOff;
  IsWf = IsWf;
  new = new;
  serialize = serialize;
  deserialize = deserialize;
  size = 12;
  laws = MsgClientLoggedOff-IsSerializable;
}
