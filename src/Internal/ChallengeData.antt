-- ===== src/Internal/ChallengeData.antt =====
-- `struct ChallengeData` of include/steamclient/types/generated/SteamLanguageInternal.hpp: its fields,
-- its default constructor, `Serialize` and `Deserialize`. Every integer is its bit pattern.
use steam_min_cpp.Prelude.{ℕ, ◌^◌, ◌<◌, List, ◌++◌, length-append, arith}
use steam_min_cpp.Stream.{M, ◌>>=◌, ◌>>◌, pure, write, read}
use steam_min_cpp.Stream.Bytes.{le_bytes, length-le_bytes}
use steam_min_cpp.Stream.Laws.{
  Writes-write, Writes-then, Parses-read, Parses-bind, Parses-last, Consumes-read, Consumes-bind,
  Consumes-last,
}
use steam_min_cpp.Internal.Serializable.{IsSerializable, SerializableClass}

abbrev pub challenge_mask : ℕ
challenge_mask = 0xA426DF2B

pub record ChallengeData : Type 0 where
  pub challenge_value : ℕ
  pub server_load : ℕ

unfoldable pub new : ChallengeData
new = record { challenge_value = 0; server_load = 0 }

unfoldable pub serialize : ChallengeData → M (Unit {0})
serialize m = do write 4 m.challenge_value; write 4 m.server_load

unfoldable pub deserialize : M ChallengeData
deserialize = do
  challenge_value ← read 4
  server_load ← read 4
  pure (record { challenge_value = challenge_value; server_load = server_load })

-- Each field is a value of its type.
abbrev pub IsWf : ChallengeData → Type 0
IsWf m = (m.challenge_value < 2 ^ 32) × (m.server_load < 2 ^ 32)

abbrev encoding : ChallengeData → List ℕ
encoding m = le_bytes 4 m.challenge_value ++ le_bytes 4 m.server_load

pub ChallengeData-IsSerializable : IsSerializable ChallengeData IsWf new serialize deserialize 8
unfolding new serialize deserialize
ChallengeData-IsSerializable = record {
  new_is_wf = omega arith;
  encoding = encoding;
  writes = λ m. Writes-then (Writes-write 4 m.challenge_value) (Writes-write 4 m.server_load);
  parses = λ m h.
      Parses-bind _ (Parses-read 4 m.challenge_value h.0)
        (Parses-last _ (Parses-read 4 m.server_load h.1));
  size_lem = λ m h. omega (
    arith,
    length-append (le_bytes 4 m.challenge_value) (le_bytes 4 m.server_load),
    length-le_bytes 4 m.challenge_value,
    length-le_bytes 4 m.server_load,
  );
  consumes =
      Consumes-bind _ (Consumes-read 4 (omega arith))
        (λ challenge_value. Consumes-last _ (Consumes-read 4 (omega arith)));
}

abbrev pub class : SerializableClass
class = record {
  Body = ChallengeData;
  IsWf = IsWf;
  new = new;
  serialize = serialize;
  deserialize = deserialize;
  size = 8;
  laws = ChallengeData-IsSerializable;
}
