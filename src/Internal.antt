-- ===== src/Internal.antt =====
-- include/steamclient/types/generated/SteamLanguageInternal.hpp: a module per class.
pub mod Accept
pub mod ChallengeData
pub mod ConnectData
pub mod Datagram
pub mod Disconnect
pub mod ExtendedClientMsgHdr
pub mod MsgChannelEncryptRequest
pub mod MsgChannelEncryptResponse
pub mod MsgChannelEncryptResult
pub mod MsgClientAppUsageEvent
pub mod MsgClientChatAction
pub mod MsgClientChatActionResult
pub mod MsgClientChatEnter
pub mod MsgClientChatMemberInfo
pub mod MsgClientChatMsg
pub mod MsgClientChatRoomInfo
pub mod MsgClientCreateChat
pub mod MsgClientCreateChatResponse
pub mod MsgClientGenericResponse
pub mod MsgClientGetFriendsWhoPlayGame
pub mod MsgClientGetFriendsWhoPlayGameResponse
pub mod MsgClientGetLegacyGameKey
pub mod MsgClientGetLegacyGameKeyResponse
pub mod MsgClientJoinChat
pub mod MsgClientJustStrings
pub mod MsgClientLogOnResponse
pub mod MsgClientLoggedOff
pub mod MsgClientLogon
pub mod MsgClientMarketingMessageUpdate2
pub mod MsgClientOgsBeginSession
pub mod MsgClientOgsBeginSessionResponse
pub mod MsgClientOgsEndSession
pub mod MsgClientOgsEndSessionResponse
pub mod MsgClientOgsWriteRow
pub mod MsgClientP2pIntroducerMessage
pub mod MsgClientServerUnavailable
pub mod MsgClientSetIgnoreFriend
pub mod MsgClientSetIgnoreFriendResponse
pub mod MsgClientUpdateGuestPassesList
pub mod MsgClientVacBanStatus
pub mod MsgGcHdr
pub mod MsgGsApprove
pub mod MsgGsDeny
pub mod MsgGsGetPlayStatsResponse
pub mod MsgGsGetReputationResponse
pub mod MsgGsGetUserGroupStatus
pub mod MsgGsGetUserGroupStatusResponse
pub mod MsgGsKick
pub mod MsgGsPerformHardwareSurvey
pub mod MsgHdr
pub mod Registry
pub mod Serializable
pub mod UdpHeader
pub mod SteamId
pub mod Protobuf
pub mod MsgHdrProtoBuf
pub mod MsgGcHdrProtoBuf
