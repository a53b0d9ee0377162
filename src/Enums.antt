-- ===== src/Enums.antt =====
-- Values of the enumerations of include/steamclient/types/generated/SteamLanguage.hpp.
pub mod EUdpPacketType
pub mod EMsg
pub mod EMsgs
pub mod EResult
pub mod EUniverse
pub mod EAppUsageEvent
pub mod EIntroducerRouting
pub mod EDenyReason
pub mod EClanRelationship
pub mod EClanRank
pub mod EChatRoomType
pub mod EChatRoomEnterResponse
pub mod EChatEntryType
pub mod EChatInfoType
pub mod EChatAction
pub mod EChatActionResult
pub mod EServerType
pub mod EChatPermission
pub mod EAccountType
