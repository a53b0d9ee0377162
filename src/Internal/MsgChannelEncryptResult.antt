-- ===== src/Internal/MsgChannelEncryptResult.antt =====
-- `struct MsgChannelEncryptResult` of include/steamclient/types/generated/SteamLanguageInternal.hpp: its fields,
-- its default constructor, `Serialize` and `Deserialize`. Every integer is its bit pattern.
use steam_min_cpp.Prelude.{ℕ, ◌^◌, ◌<◌, List, arith}
use steam_min_cpp.Stream.{M, ◌>>=◌, pure, write, read}
use steam_min_cpp.Stream.Bytes.{le_bytes, length-le_bytes}
use steam_min_cpp.Stream.Laws.{Writes-write, Parses-read, Parses-last, Consumes-read, Consumes-last}
use steam_min_cpp.Internal.Serializable.{IsSerializable, SerializableClass}
use steam_min_cpp.Enums.EMsg
use steam_min_cpp.Enums.EResult

pub record MsgChannelEncryptResult : Type 0 where
  pub result : ℕ

unfoldable pub new : MsgChannelEncryptResult
new = record { result = EResult.invalid }

unfoldable pub get_emsg : MsgChannelEncryptResult → ℕ
get_emsg m = EMsg.channel_encrypt_result

unfoldable pub serialize : MsgChannelEncryptResult → M (Unit {0})
serialize m = write 4 m.result

unfoldable pub deserialize : M MsgChannelEncryptResult
deserialize = do result ← read 4; pure (record { result = result })

-- Each field is a value of its type.
abbrev pub IsWf : MsgChannelEncryptResult → Type 0
IsWf m = (m.result < 2 ^ 32)

abbrev encoding : MsgChannelEncryptResult → List ℕ
encoding m = le_bytes 4 m.result

pub MsgChannelEncryptResult-IsSerializable :
    IsSerializable MsgChannelEncryptResult IsWf new serialize deserialize 4
unfolding new serialize deserialize
MsgChannelEncryptResult-IsSerializable = record {
  new_is_wf = omega arith;
  encoding = encoding;
  writes = λ m. Writes-write 4 m.result;
  parses = λ m h. Parses-last _ (Parses-read 4 m.result h);
  size_lem = λ m h. omega (arith, length-le_bytes 4 m.result);
  consumes = Consumes-last _ (Consumes-read 4 (omega arith));
}

abbrev pub class : SerializableClass
class = record {
  Body = MsgChannelEncryptResult;
  IsWf = IsWf;
  new = new;
  serialize = serialize;
  deserialize = deserialize;
  size = 4;
  laws = MsgChannelEncryptResult-IsSerializable;
}
