-- ===== src/Enums/EIntroducerRouting.antt =====
-- The enumerators of `enum class EIntroducerRouting` (include/steamclient/types/generated/SteamLanguage.hpp) that
-- the modelled code names. A value of the enum is any 32-bit pattern.
use steam_min_cpp.Prelude.{ℕ}

abbrev pub unknown : ℕ
unknown = 0
