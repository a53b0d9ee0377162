-- ===== src/Internal/Serializable.antt =====
-- `ISteamSerializable` of include/steamclient/types/generated/SteamLanguageInternal.hpp, with the
-- laws that its implementations keep.
use steam_min_cpp.Prelude.{ℕ, ◌≡◌, List, length}
use steam_min_cpp.Stream.{M}
use steam_min_cpp.Stream.Laws.{Writes, Parses, Consumes}

-- On a value whose fields are in range, `serialize` writes `size` bytes that `deserialize` reads
-- back; on any input `deserialize` takes `size` bytes, or throws.
pub record IsSerializable (T : Type 0) (IsWf : T → Type 0) (new : T) (serialize : T → M (Unit {0}))
    (deserialize : M T) (size : ℕ) : Type 0 where
  pub new_is_wf : IsWf new
  pub encoding : T → List ℕ
  pub writes : (m : T) → Writes (serialize m) (encoding m)
  pub parses : (m : T) → IsWf m → Parses deserialize m (encoding m)
  pub size_lem : (m : T) → IsWf m → length (encoding m) ≡ size
  pub consumes : Consumes deserialize size

-- A class with the members of the interface and their laws.
pub record SerializableClass : Type 1 where
  pub Body : Type 0
  pub IsWf : Body → Type 0
  pub new : Body
  pub serialize : Body → M (Unit {0})
  pub deserialize : M Body
  pub size : ℕ
  pub laws : IsSerializable Body IsWf new serialize deserialize size
