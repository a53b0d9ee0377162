-- ===== src/Enums/EClanRelationship.antt =====
-- The enumerators of `enum class EClanRelationship` (include/steamclient/types/generated/SteamLanguage.hpp) that
-- the modelled code names. A value of the enum is any 32-bit pattern.
use steam_min_cpp.Prelude.{ℕ}

abbrev pub none : ℕ
none = 0
