-- ===== src/Enums/EChatPermission.antt =====
-- The enumerators of `enum class EChatPermission` (include/steamclient/types/generated/SteamLanguage.hpp) that
-- the modelled code names. A value of the enum is any 32-bit pattern.
use steam_min_cpp.Prelude.{ℕ}

abbrev pub member_default : ℕ
member_default = 282

abbrev pub officer_default : ℕ
officer_default = 282

abbrev pub owner_default : ℕ
owner_default = 891
