-- ===== src/Internal/MsgGsPerformHardwareSurvey.antt =====
-- `struct MsgGSPerformHardwareSurvey` of include/steamclient/types/generated/SteamLanguageInternal.hpp: its fields,
-- its default constructor, `Serialize` and `Deserialize`. Every integer is its bit pattern.
use steam_min_cpp.Prelude.{ℕ, ◌^◌, ◌<◌, List, arith}
use steam_min_cpp.Stream.{M, ◌>>=◌, pure, write, read}
use steam_min_cpp.Stream.Bytes.{le_bytes, length-le_bytes}
use steam_min_cpp.Stream.Laws.{Writes-write, Parses-read, Parses-last, Consumes-read, Consumes-last}
use steam_min_cpp.Internal.Serializable.{IsSerializable, SerializableClass}
use steam_min_cpp.Enums.EMsg

pub record MsgGsPerformHardwareSurvey : Type 0 where
  pub flags : ℕ

unfoldable pub new : MsgGsPerformHardwareSurvey
new = record { flags = 0 }

unfoldable pub get_emsg : MsgGsPerformHardwareSurvey → ℕ
get_emsg m = EMsg.gs_perform_hardware_survey

unfoldable pub serialize : MsgGsPerformHardwareSurvey → M (Unit {0})
serialize m = write 4 m.flags

unfoldable pub deserialize : M MsgGsPerformHardwareSurvey
deserialize = do flags ← read 4; pure (record { flags = flags })

-- Each field is a value of its type.
abbrev pub IsWf : MsgGsPerformHardwareSurvey → Type 0
IsWf m = (m.flags < 2 ^ 32)

abbrev encoding : MsgGsPerformHardwareSurvey → List ℕ
encoding m = le_bytes 4 m.flags

pub MsgGsPerformHardwareSurvey-IsSerializable :
    IsSerializable MsgGsPerformHardwareSurvey IsWf new serialize deserialize 4
unfolding new serialize deserialize
MsgGsPerformHardwareSurvey-IsSerializable = record {
  new_is_wf = omega arith;
  encoding = encoding;
  writes = λ m. Writes-write 4 m.flags;
  parses = λ m h. Parses-last _ (Parses-read 4 m.flags h);
  size_lem = λ m h. omega (arith, length-le_bytes 4 m.flags);
  consumes = Consumes-last _ (Consumes-read 4 (omega arith));
}

abbrev pub class : SerializableClass
class = record {
  Body = MsgGsPerformHardwareSurvey;
  IsWf = IsWf;
  new = new;
  serialize = serialize;
  deserialize = deserialize;
  size = 4;
  laws = MsgGsPerformHardwareSurvey-IsSerializable;
}
