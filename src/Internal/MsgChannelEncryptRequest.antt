-- ===== src/Internal/MsgChannelEncryptRequest.antt =====
-- `struct MsgChannelEncryptRequest` of include/steamclient/types/generated/SteamLanguageInternal.hpp: its fields,
-- its default constructor, `Serialize` and `Deserialize`. Every integer is its bit pattern.
use steam_min_cpp.Prelude.{ℕ, ◌^◌, ◌<◌, List, ◌++◌, length-append, arith}
use steam_min_cpp.Stream.{M, ◌>>=◌, ◌>>◌, pure, write, read}
use steam_min_cpp.Stream.Bytes.{le_bytes, length-le_bytes}
use steam_min_cpp.Stream.Laws.{
  Writes-write, Writes-then, Parses-read, Parses-bind, Parses-last, Consumes-read, Consumes-bind,
  Consumes-last,
}
use steam_min_cpp.Internal.Serializable.{IsSerializable, SerializableClass}
use steam_min_cpp.Enums.EMsg
use steam_min_cpp.Enums.EUniverse

abbrev pub protocol_version : ℕ
protocol_version = 1

pub record MsgChannelEncryptRequest : Type 0 where
  pub protocol_version : ℕ
  pub universe : ℕ

unfoldable pub new : MsgChannelEncryptRequest
new = record { protocol_version = protocol_version; universe = EUniverse.invalid }

unfoldable pub get_emsg : MsgChannelEncryptRequest → ℕ
get_emsg m = EMsg.channel_encrypt_request

unfoldable pub serialize : MsgChannelEncryptRequest → M (Unit {0})
serialize m = do write 4 m.protocol_version; write 4 m.universe

unfoldable pub deserialize : M MsgChannelEncryptRequest
deserialize = do
  protocol_version ← read 4
  universe ← read 4
  pure (record { protocol_version = protocol_version; universe = universe })

-- Each field is a value of its type.
abbrev pub IsWf : MsgChannelEncryptRequest → Type 0
IsWf m = (m.protocol_version < 2 ^ 32) × (m.universe < 2 ^ 32)

abbrev encoding : MsgChannelEncryptRequest → List ℕ
encoding m = le_bytes 4 m.protocol_version ++ le_bytes 4 m.universe

pub MsgChannelEncryptRequest-IsSerializable :
    IsSerializable MsgChannelEncryptRequest IsWf new serialize deserialize 8
unfolding new serialize deserialize
MsgChannelEncryptRequest-IsSerializable = record {
  new_is_wf = omega arith;
  encoding = encoding;
  writes = λ m. Writes-then (Writes-write 4 m.protocol_version) (Writes-write 4 m.universe);
  parses = λ m h.
      Parses-bind _ (Parses-read 4 m.protocol_version h.0)
        (Parses-last _ (Parses-read 4 m.universe h.1));
  size_lem = λ m h. omega (
    arith,
    length-append (le_bytes 4 m.protocol_version) (le_bytes 4 m.universe),
    length-le_bytes 4 m.protocol_version,
    length-le_bytes 4 m.universe,
  );
  consumes =
      Consumes-bind _ (Consumes-read 4 (omega arith))
        (λ protocol_version. Consumes-last _ (Consumes-read 4 (omega arith)));
}

abbrev pub class : SerializableClass
class = record {
  Body = MsgChannelEncryptRequest;
  IsWf = IsWf;
  new = new;
  serialize = serialize;
  deserialize = deserialize;
  size = 8;
  laws = MsgChannelEncryptRequest-IsSerializable;
}
