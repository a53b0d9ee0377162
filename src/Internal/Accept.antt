-- ===== src/Internal/Accept.antt =====
-- `struct Accept` of include/steamclient/types/generated/SteamLanguageInternal.hpp: its fields,
-- its default constructor, `Serialize` and `Deserialize`. Every integer is its bit pattern.
use steam_min_cpp.Prelude.{ℕ, refl, List, []}
use steam_min_cpp.Stream.{M, pure}
use steam_min_cpp.Stream.Arrays.{Writes-pure, Parses-pure, Consumes-pure}
use steam_min_cpp.Internal.Serializable.{IsSerializable, SerializableClass}

pub record Accept : Type 0 where

unfoldable pub new : Accept
new = record {}

unfoldable pub serialize : Accept → M (Unit {0})
serialize m = pure tt

unfoldable pub deserialize : M Accept
deserialize = pure (record {})

-- Each field is a value of its type.
abbrev pub IsWf : Accept → Type 0
IsWf m = Unit {0}

abbrev encoding : Accept → List ℕ
encoding m = []

pub Accept-IsSerializable : IsSerializable Accept IsWf new serialize deserialize 0
unfolding new serialize deserialize
Accept-IsSerializable = record {
  new_is_wf = tt;
  encoding = encoding;
  writes = λ m. Writes-pure;
  parses = λ m h. Parses-pure m;
  size_lem = λ m h. refl;
  consumes = Consumes-pure (record {});
}

abbrev pub class : SerializableClass
class = record {
  Body = Accept;
  IsWf = IsWf;
  new = new;
  serialize = serialize;
  deserialize = deserialize;
  size = 0;
  laws = Accept-IsSerializable;
}
