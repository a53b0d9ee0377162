-- ===== src/Internal/MsgChannelEncryptResponse.antt =====
-- `struct MsgChannelEncryptResponse` of include/steamclient/types/generated/SteamLanguageInternal.hpp: its fields,
-- its default constructor, `Serialize` and `Deserialize`. Every integer is its bit pattern.
use steam_min_cpp.Prelude.{ℕ, ◌^◌, ◌<◌, List, ◌++◌, length-append, arith}
use steam_min_cpp.Stream.{M, ◌>>=◌, ◌>>◌, pure, write, read}
use steam_min_cpp.Stream.Bytes.{le_bytes, length-le_bytes}
use steam_min_cpp.Stream.Laws.{
  Writes-write, Writes-then, Parses-read, Parses-bind, Parses-last, Consumes-read, Consumes-bind,
  Consumes-last,
}
use steam_min_cpp.Internal.Serializable.{IsSerializable, SerializableClass}
use steam_min_cpp.Enums.EMsg
use steam_min_cpp.Internal.MsgChannelEncryptRequest

pub record MsgChannelEncryptResponse : Type 0 where
  pub protocol_version : ℕ
  pub key_size : ℕ

unfoldable pub new : MsgChannelEncryptResponse
new = record { protocol_version = MsgChannelEncryptRequest.protocol_version; key_size = 128 }

unfoldable pub get_emsg : MsgChannelEncryptResponse → ℕ
get_emsg m = EMsg.channel_encrypt_response

unfoldable pub serialize : MsgChannelEncryptResponse → M (Unit {0})
serialize m = do write 4 m.protocol_version; write 4 m.key_size

unfoldable pub deserialize : M MsgChannelEncryptResponse
deserialize = do
  protocol_version ← read 4
  key_size ← read 4
  pure (record { protocol_version = protocol_version; key_size = key_size })

-- Each field is a value of its type.
abbrev pub IsWf : MsgChannelEncryptResponse → Type 0
IsWf m = (m.protocol_version < 2 ^ 32) × (m.key_size < 2 ^ 32)

abbrev encoding : MsgChannelEncryptResponse → List ℕ
encoding m = le_bytes 4 m.protocol_version ++ le_bytes 4 m.key_size

pub MsgChannelEncryptResponse-IsSerializable :
    IsSerializable MsgChannelEncryptResponse IsWf new serialize deserialize 8
unfolding new serialize deserialize
MsgChannelEncryptResponse-IsSerializable = record {
  new_is_wf = omega arith;
  encoding = encoding;
  writes = λ m. Writes-then (Writes-write 4 m.protocol_version) (Writes-write 4 m.key_size);
  parses = λ m h.
      Parses-bind _ (Parses-read 4 m.protocol_version h.0)
        (Parses-last _ (Parses-read 4 m.key_size h.1));
  size_lem = λ m h. omega (
    arith,
    length-append (le_bytes 4 m.protocol_version) (le_bytes 4 m.key_size),
    length-le_bytes 4 m.protocol_version,
    length-le_bytes 4 m.key_size,
  );
  consumes =
      Consumes-bind _ (Consumes-read 4 (omega arith))
        (λ protocol_version. Consumes-last _ (Consumes-read 4 (omega arith)));
}

abbrev pub class : SerializableClass
class = record {
  Body = MsgChannelEncryptResponse;
  IsWf = IsWf;
  new = new;
  serialize = serialize;
  deserialize = deserialize;
  size = 8;
  laws = MsgChannelEncryptResponse-IsSerializable;
}
