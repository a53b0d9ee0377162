-- ===== src/Enums/EResult.antt =====
-- The enumerators of `enum class EResult` (include/steamclient/types/generated/SteamLanguage.hpp) that
-- the modelled code names. A value of the enum is any 32-bit pattern.
use steam_min_cpp.Prelude.{ℕ}

abbrev pub invalid : ℕ
invalid = 0

abbrev pub ok : ℕ
ok = 1
