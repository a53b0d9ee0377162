-- ===== src/Internal/Registry.antt =====
-- The classes of include/steamclient/types/generated/SteamLanguageInternal.hpp that implement
-- `ISteamSerializable` by fixed fields, as one enumeration: the laws of each, for all of them.
pub mod RoundTrip
use steam_min_cpp.Internal.Serializable.{SerializableClass}
use steam_min_cpp.Internal.UdpHeader
use steam_min_cpp.Internal.ChallengeData
use steam_min_cpp.Internal.ConnectData
use steam_min_cpp.Internal.Accept
use steam_min_cpp.Internal.Datagram
use steam_min_cpp.Internal.Disconnect
use steam_min_cpp.Internal.MsgHdr
use steam_min_cpp.Internal.ExtendedClientMsgHdr
use steam_min_cpp.Internal.MsgGcHdr
use steam_min_cpp.Internal.MsgClientJustStrings
use steam_min_cpp.Internal.MsgClientGenericResponse
use steam_min_cpp.Internal.MsgChannelEncryptRequest
use steam_min_cpp.Internal.MsgChannelEncryptResponse
use steam_min_cpp.Internal.MsgChannelEncryptResult
use steam_min_cpp.Internal.MsgClientLogon
use steam_min_cpp.Internal.MsgClientVacBanStatus
use steam_min_cpp.Internal.MsgClientAppUsageEvent
use steam_min_cpp.Internal.MsgClientUpdateGuestPassesList
use steam_min_cpp.Internal.MsgClientP2pIntroducerMessage
use steam_min_cpp.Internal.MsgClientOgsBeginSession
use steam_min_cpp.Internal.MsgClientOgsBeginSessionResponse
use steam_min_cpp.Internal.MsgClientOgsEndSession
use steam_min_cpp.Internal.MsgClientOgsEndSessionResponse
use steam_min_cpp.Internal.MsgClientOgsWriteRow
use steam_min_cpp.Internal.MsgClientGetFriendsWhoPlayGame
use steam_min_cpp.Internal.MsgClientGetFriendsWhoPlayGameResponse
use steam_min_cpp.Internal.MsgGsPerformHardwareSurvey
use steam_min_cpp.Internal.MsgGsGetPlayStatsResponse
use steam_min_cpp.Internal.MsgGsGetReputationResponse
use steam_min_cpp.Internal.MsgGsDeny
use steam_min_cpp.Internal.MsgGsApprove
use steam_min_cpp.Internal.MsgGsKick
use steam_min_cpp.Internal.MsgGsGetUserGroupStatus
use steam_min_cpp.Internal.MsgGsGetUserGroupStatusResponse
use steam_min_cpp.Internal.MsgClientJoinChat
use steam_min_cpp.Internal.MsgClientChatEnter
use steam_min_cpp.Internal.MsgClientChatMsg
use steam_min_cpp.Internal.MsgClientChatMemberInfo
use steam_min_cpp.Internal.MsgClientChatAction
use steam_min_cpp.Internal.MsgClientChatActionResult
use steam_min_cpp.Internal.MsgClientChatRoomInfo
use steam_min_cpp.Internal.MsgClientSetIgnoreFriend
use steam_min_cpp.Internal.MsgClientSetIgnoreFriendResponse
use steam_min_cpp.Internal.MsgClientLoggedOff
use steam_min_cpp.Internal.MsgClientLogOnResponse
use steam_min_cpp.Internal.MsgClientServerUnavailable
use steam_min_cpp.Internal.MsgClientCreateChat
use steam_min_cpp.Internal.MsgClientCreateChatResponse
use steam_min_cpp.Internal.MsgClientMarketingMessageUpdate2
use steam_min_cpp.Internal.MsgClientGetLegacyGameKey
use steam_min_cpp.Internal.MsgClientGetLegacyGameKeyResponse

pub data ClassName : Type 0 where
  udp_header : ClassName
  challenge_data : ClassName
  connect_data : ClassName
  accept : ClassName
  datagram : ClassName
  disconnect : ClassName
  msg_hdr : ClassName
  extended_client_msg_hdr : ClassName
  msg_gc_hdr : ClassName
  msg_client_just_strings : ClassName
  msg_client_generic_response : ClassName
  msg_channel_encrypt_request : ClassName
  msg_channel_encrypt_response : ClassName
  msg_channel_encrypt_result : ClassName
  msg_client_logon : ClassName
  msg_client_vac_ban_status : ClassName
  msg_client_app_usage_event : ClassName
  msg_client_update_guest_passes_list : ClassName
  msg_client_p2p_introducer_message : ClassName
  msg_client_ogs_begin_session : ClassName
  msg_client_ogs_begin_session_response : ClassName
  msg_client_ogs_end_session : ClassName
  msg_client_ogs_end_session_response : ClassName
  msg_client_ogs_write_row : ClassName
  msg_client_get_friends_who_play_game : ClassName
  msg_client_get_friends_who_play_game_response : ClassName
  msg_gs_perform_hardware_survey : ClassName
  msg_gs_get_play_stats_response : ClassName
  msg_gs_get_reputation_response : ClassName
  msg_gs_deny : ClassName
  msg_gs_approve : ClassName
  msg_gs_kick : ClassName
  msg_gs_get_user_group_status : ClassName
  msg_gs_get_user_group_status_response : ClassName
  msg_client_join_chat : ClassName
  msg_client_chat_enter : ClassName
  msg_client_chat_msg : ClassName
  msg_client_chat_member_info : ClassName
  msg_client_chat_action : ClassName
  msg_client_chat_action_result : ClassName
  msg_client_chat_room_info : ClassName
  msg_client_set_ignore_friend : ClassName
  msg_client_set_ignore_friend_response : ClassName
  msg_client_logged_off : ClassName
  msg_client_log_on_response : ClassName
  msg_client_server_unavailable : ClassName
  msg_client_create_chat : ClassName
  msg_client_create_chat_response : ClassName
  msg_client_marketing_message_update2 : ClassName
  msg_client_get_legacy_game_key : ClassName
  msg_client_get_legacy_game_key_response : ClassName

abbrev pub class_of : ClassName → SerializableClass
class_of udp_header = UdpHeader.class
class_of challenge_data = ChallengeData.class
class_of connect_data = ConnectData.class
class_of accept = Accept.class
class_of datagram = Datagram.class
class_of disconnect = Disconnect.class
class_of msg_hdr = MsgHdr.class
class_of extended_client_msg_hdr = ExtendedClientMsgHdr.class
class_of msg_gc_hdr = MsgGcHdr.class
class_of msg_client_just_strings = MsgClientJustStrings.class
class_of msg_client_generic_response = MsgClientGenericResponse.class
class_of msg_channel_encrypt_request = MsgChannelEncryptRequest.class
class_of msg_channel_encrypt_response = MsgChannelEncryptResponse.class
class_of msg_channel_encrypt_result = MsgChannelEncryptResult.class
class_of msg_client_logon = MsgClientLogon.class
class_of msg_client_vac_ban_status = MsgClientVacBanStatus.class
class_of msg_client_app_usage_event = MsgClientAppUsageEvent.class
class_of msg_client_update_guest_passes_list = MsgClientUpdateGuestPassesList.class
class_of msg_client_p2p_introducer_message = MsgClientP2pIntroducerMessage.class
class_of msg_client_ogs_begin_session = MsgClientOgsBeginSession.class
class_of msg_client_ogs_begin_session_response = MsgClientOgsBeginSessionResponse.class
class_of msg_client_ogs_end_session = MsgClientOgsEndSession.class
class_of msg_client_ogs_end_session_response = MsgClientOgsEndSessionResponse.class
class_of msg_client_ogs_write_row = MsgClientOgsWriteRow.class
class_of msg_client_get_friends_who_play_game = MsgClientGetFriendsWhoPlayGame.class
class_of msg_client_get_friends_who_play_game_response =
    MsgClientGetFriendsWhoPlayGameResponse.class
class_of msg_gs_perform_hardware_survey = MsgGsPerformHardwareSurvey.class
class_of msg_gs_get_play_stats_response = MsgGsGetPlayStatsResponse.class
class_of msg_gs_get_reputation_response = MsgGsGetReputationResponse.class
class_of msg_gs_deny = MsgGsDeny.class
class_of msg_gs_approve = MsgGsApprove.class
class_of msg_gs_kick = MsgGsKick.class
class_of msg_gs_get_user_group_status = MsgGsGetUserGroupStatus.class
class_of msg_gs_get_user_group_status_response = MsgGsGetUserGroupStatusResponse.class
class_of msg_client_join_chat = MsgClientJoinChat.class
class_of msg_client_chat_enter = MsgClientChatEnter.class
class_of msg_client_chat_msg = MsgClientChatMsg.class
class_of msg_client_chat_member_info = MsgClientChatMemberInfo.class
class_of msg_client_chat_action = MsgClientChatAction.class
class_of msg_client_chat_action_result = MsgClientChatActionResult.class
class_of msg_client_chat_room_info = MsgClientChatRoomInfo.class
class_of msg_client_set_ignore_friend = MsgClientSetIgnoreFriend.class
class_of msg_client_set_ignore_friend_response = MsgClientSetIgnoreFriendResponse.class
class_of msg_client_logged_off = MsgClientLoggedOff.class
class_of msg_client_log_on_response = MsgClientLogOnResponse.class
class_of msg_client_server_unavailable = MsgClientServerUnavailable.class
class_of msg_client_create_chat = MsgClientCreateChat.class
class_of msg_client_create_chat_response = MsgClientCreateChatResponse.class
class_of msg_client_marketing_message_update2 = MsgClientMarketingMessageUpdate2.class
class_of msg_client_get_legacy_game_key = MsgClientGetLegacyGameKey.class
class_of msg_client_get_legacy_game_key_response = MsgClientGetLegacyGameKeyResponse.class
