-- ===== src/Internal/MsgClientLogon.antt =====
-- `struct MsgClientLogon` of include/steamclient/types/generated/SteamLanguageInternal.hpp: its fields,
-- its default constructor, `Serialize` and `Deserialize`. Every integer is its bit pattern.
use steam_min_cpp.Prelude.{ℕ, refl, List, []}
use steam_min_cpp.Stream.{M, pure}
use steam_min_cpp.Stream.Arrays.{Writes-pure, Parses-pure, Consumes-pure}
use steam_min_cpp.Internal.Serializable.{IsSerializable, SerializableClass}
use steam_min_cpp.Enums.EMsg

pub record MsgClientLogon : Type 0 where

unfoldable pub new : MsgClientLogon
new = record {}

unfoldable pub get_emsg : MsgClientLogon → ℕ
get_emsg m = EMsg.client_logon

unfoldable pub serialize : MsgClientLogon → M (Unit {0})
serialize m = pure tt

unfoldable pub deserialize : M MsgClientLogon
deserialize = pure (record {})

-- Each field is a value of its type.
abbrev pub IsWf : MsgClientLogon → Type 0
IsWf m = Unit {0}

abbrev encoding : MsgClientLogon → List ℕ
encoding m = []

pub MsgClientLogon-IsSerializable : IsSerializable MsgClientLogon IsWf new serialize deserialize 0
unfolding new serialize deserialize
MsgClientLogon-IsSerializable = record {
  new_is_wf = tt;
  encoding = encoding;
  writes = λ m. Writes-pure;
  parses = λ m h. Parses-pure m;
  size_lem = λ m h. refl;
  consumes = Consumes-pure (record {});
}

abbrev pub class : SerializableClass
class = record {
  Body = MsgClientLogon;
  IsWf = IsWf;
  new = new;
  serialize = serialize;
  deserialize = deserialize;
  size = 0;
  laws = MsgClientLogon-IsSerializable;
}
