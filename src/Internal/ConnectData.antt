-- ===== src/Internal/ConnectData.antt =====
-- `struct ConnectData` of include/steamclient/types/generated/SteamLanguageInternal.hpp: its fields,
-- its default constructor, `Serialize` and `Deserialize`. Every integer is its bit pattern.
use steam_min_cpp.Prelude.{ℕ, ◌^◌, ◌<◌, List, arith}
use steam_min_cpp.Stream.{M, ◌>>=◌, pure, write, read}
use steam_min_cpp.Stream.Bytes.{le_bytes, length-le_bytes}
use steam_min_cpp.Stream.Laws.{Writes-write, Parses-read, Parses-last, Consumes-read, Consumes-last}
use steam_min_cpp.Internal.Serializable.{IsSerializable, SerializableClass}
use steam_min_cpp.Internal.ChallengeData

abbrev pub challenge_mask : ℕ
challenge_mask = ChallengeData.challenge_mask

pub record ConnectData : Type 0 where
  pub challenge_value : ℕ

unfoldable pub new : ConnectData
new = record { challenge_value = 0 }

unfoldable pub serialize : ConnectData → M (Unit {0})
serialize m = write 4 m.challenge_value

unfoldable pub deserialize : M ConnectData
deserialize = do challenge_value ← read 4; pure (record { challenge_value = challenge_value })

-- Each field is a value of its type.
abbrev pub IsWf : ConnectData → Type 0
IsWf m = (m.challenge_value < 2 ^ 32)

abbrev encoding : ConnectData → List ℕ
encoding m = le_bytes 4 m.challenge_value

pub ConnectData-IsSerializable : IsSerializable ConnectData IsWf new serialize deserialize 4
unfolding new serialize deserialize
ConnectData-IsSerializable = record {
  new_is_wf = omega arith;
  encoding = encoding;
  writes = λ m. Writes-write 4 m.challenge_value;
  parses = λ m h. Parses-last _ (Parses-read 4 m.challenge_value h);
  size_lem = λ m h. omega (arith, length-le_bytes 4 m.challenge_value);
  consumes = Consumes-last _ (Consumes-read 4 (omega arith));
}

abbrev pub class : SerializableClass
class = record {
  Body = ConnectData;
  IsWf = IsWf;
  new = new;
  serialize = serialize;
  deserialize = deserialize;
  size = 4;
  laws = ConnectData-IsSerializable;
}
