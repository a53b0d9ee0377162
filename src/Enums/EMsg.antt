-- ===== src/Enums/EMsg.antt =====
-- The enumerators of `enum class EMsg` (include/steamclient/types/generated/SteamLanguage.hpp) that
-- the modelled code names. A value of the enum is any 32-bit pattern.
use steam_min_cpp.Prelude.{ℕ}

abbrev pub invalid : ℕ
invalid = 0

abbrev pub multi : ℕ
multi = 1

abbrev pub client_chat_action : ℕ
client_chat_action = 597

abbrev pub client_log_off : ℕ
client_log_off = 706

abbrev pub client_get_legacy_game_key : ℕ
client_get_legacy_game_key = 730

abbrev pub client_app_usage_event : ℕ
client_app_usage_event = 747

abbrev pub client_log_on_response : ℕ
client_log_on_response = 751

abbrev pub client_logged_off : ℕ
client_logged_off = 757

abbrev pub gs_approve : ℕ
gs_approve = 758

abbrev pub gs_deny : ℕ
gs_deny = 759

abbrev pub gs_kick : ℕ
gs_kick = 760

abbrev pub client_vac_ban_status : ℕ
client_vac_ban_status = 782

abbrev pub client_get_legacy_game_key_response : ℕ
client_get_legacy_game_key_response = 785

abbrev pub client_update_guest_passes_list : ℕ
client_update_guest_passes_list = 798

abbrev pub client_chat_msg : ℕ
client_chat_msg = 799

abbrev pub client_join_chat : ℕ
client_join_chat = 801

abbrev pub client_chat_member_info : ℕ
client_chat_member_info = 802

abbrev pub client_chat_enter : ℕ
client_chat_enter = 807

abbrev pub client_create_chat : ℕ
client_create_chat = 809

abbrev pub client_create_chat_response : ℕ
client_create_chat_response = 810

abbrev pub client_p2p_introducer_message : ℕ
client_p2p_introducer_message = 813

abbrev pub client_chat_action_result : ℕ
client_chat_action_result = 814

abbrev pub client_set_ignore_friend : ℕ
client_set_ignore_friend = 855

abbrev pub client_set_ignore_friend_response : ℕ
client_set_ignore_friend_response = 856

abbrev pub gs_get_play_stats_response : ℕ
gs_get_play_stats_response = 919

abbrev pub gs_get_user_group_status : ℕ
gs_get_user_group_status = 920

abbrev pub gs_get_user_group_status_response : ℕ
gs_get_user_group_status_response = 923

abbrev pub gs_get_reputation_response : ℕ
gs_get_reputation_response = 937

abbrev pub channel_encrypt_request : ℕ
channel_encrypt_request = 1303

abbrev pub channel_encrypt_response : ℕ
channel_encrypt_response = 1304

abbrev pub channel_encrypt_result : ℕ
channel_encrypt_result = 1305

abbrev pub client_chat_room_info : ℕ
client_chat_room_info = 4026

abbrev pub gs_perform_hardware_survey : ℕ
gs_perform_hardware_survey = 5440

abbrev pub client_get_friends_who_play_game : ℕ
client_get_friends_who_play_game = 5488

abbrev pub client_get_friends_who_play_game_response : ℕ
client_get_friends_who_play_game_response = 5489

abbrev pub client_ogs_begin_session : ℕ
client_ogs_begin_session = 5490

abbrev pub client_ogs_begin_session_response : ℕ
client_ogs_begin_session_response = 5491

abbrev pub client_ogs_end_session : ℕ
client_ogs_end_session = 5492

abbrev pub client_ogs_end_session_response : ℕ
client_ogs_end_session_response = 5493

abbrev pub client_ogs_write_row : ℕ
client_ogs_write_row = 5494

abbrev pub client_server_unavailable : ℕ
client_server_unavailable = 5500

abbrev pub client_marketing_message_update2 : ℕ
client_marketing_message_update2 = 5510

abbrev pub client_logon : ℕ
client_logon = 5514

abbrev pub client_pics_product_info_request : ℕ
client_pics_product_info_request = 8903

abbrev pub client_pics_product_info_response : ℕ
client_pics_product_info_response = 8904

abbrev pub client_pending_game_launch_response : ℕ
client_pending_game_launch_response = 12301
