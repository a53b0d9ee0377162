-- ===== src/Tests/Commands.antt =====
-- Commands on a client, their router, the list of servers and the message numbers.
use steam_min_cpp.Prelude.{
  ℕ, ◌≡◌, ◌≢◌, refl, true, Option, some, none, List, [], ◌∷◌, length, replicate, arith,
}
use steam_min_cpp.Prelude.Results.{ok, undefined}
use steam_min_cpp.Stream
use steam_min_cpp.MsgUtil.{make_msg}
use steam_min_cpp.Events.{
  client_logon_event, channel_secured_event, succeeded, fail, anonymous_login, client_logoff,
  product_info, GetProductInfo,
}
use steam_min_cpp.Internal.MsgHdrProtoBuf
use steam_min_cpp.Internal.MsgChannelEncryptRequest
use steam_min_cpp.Internal.MsgChannelEncryptResponse
use steam_min_cpp.Internal.MsgChannelEncryptResult
use steam_min_cpp.Session.{◌>>◌}
use steam_min_cpp.Receive.{consume_frame}
use steam_min_cpp.Receive.Tables.{table}
use steam_min_cpp.Message.{Msg, serialize, serialize_proto}
use steam_min_cpp.Crypto.Manager.{process_incoming_encrypted_message}
use steam_min_cpp.Tcp
use steam_min_cpp.Tcp.{async_send}
use steam_min_cpp.Dispatch
use steam_min_cpp.Dispatch.{proto_register, dispatch_proto}
use steam_min_cpp.Commands.{exec, product_info_message}
use steam_min_cpp.Commands.Established.{exec-handshake}
use steam_min_cpp.Commands.Sent.{exec_unsecured, exec_secured}
use steam_min_cpp.Commands.Router.{RequestRouter, index_of, is_known, register, handler_of}
use steam_min_cpp.Commands.Router.Laws.{handler_of-register}
use steam_min_cpp.Fetcher.{Servers}
use steam_min_cpp.Enums.EMsgs.{enumerators}
use steam_min_cpp.Enums.EMsgs.Slots.{is_among, enumerators_slots}
use steam_min_cpp.Enums.EMsg
use steam_min_cpp.Tests.Secure.{toy_cipher, toy_cipher-IsCipher}
use steam_min_cpp.Tests.Wire.{flag_protobuf}
use steam_min_cpp.Tests.Handlers.{toy, toy_request, open_session, secured_session}

abbrev wanted : GetProductInfo
wanted = record { id = 440; steamid = 5; client_sessionid = 7; app_token = 0 }

-- The header and the body are both one flag.
abbrev asked : List ℕ
asked = 199 ∷ 34 ∷ 0 ∷ 128 ∷ 0 ∷ 0 ∷ 0 ∷ 0 ∷ 8 ∷ 1 ∷ []

asked_written :
    serialize_proto flag_protobuf flag_protobuf (product_info_message toy wanted 0) ≡ ok asked
unfolding serialize_proto Stream.◌>>=◌ MsgHdrProtoBuf.serialize Stream.pure Stream.◌>>◌ Stream.write
    Stream.writer Stream.write_raw make_msg product_info_message MsgHdrProtoBuf.set_emsg
    MsgHdrProtoBuf.new
asked_written = refl

exec_unsecured_example :
    (exec toy anonymous_login open_session ≡ (
      record open_session { emitted = client_logon_event (fail "Channel not secured") none ∷ [] },
      ok tt,
    ))
    × (exec toy client_logoff open_session ≡ (open_session, ok tt))
    × (exec toy (product_info wanted) open_session ≡ (
      record open_session {
        client = record open_session.client { connection = async_send asked Tcp.new };
        next_jobid = 1;
      },
      ok tt,
    ))
exec_unsecured_example = exec_unsecured toy open_session wanted asked refl asked_written

exec_secured_example :
    (sealed : List ℕ) × (process_incoming_encrypted_message toy_cipher secured_session.client.crypto
        sealed
      ≡ ok asked)
    × (exec toy (product_info wanted) secured_session ≡ (
      record secured_session {
        client = record secured_session.client { connection = async_send sealed Tcp.new };
        drawn = 1;
        next_jobid = 1;
      },
      ok tt,
    ))
exec_secured_example =
    exec_secured toy secured_session (product_info wanted) asked toy_cipher-IsCipher refl refl refl
      asked_written (omega arith)

-- Two types of requests, of which the second has no handler.
abbrev router : RequestRouter ℕ
router = record { ids = 4 ∷ 9 ∷ []; table = some 40 ∷ none ∷ replicate 510 none }

handler_of-register_example :
    (after : RequestRouter ℕ) × (handler : Option ℕ) × (register 9 90 router ≡ ok after)
    × (length after.table ≡ 512)
    × (handler_of 9 after ≡ ok (some 90, after))
    × (handler_of 4 router ≡ ok (handler, router))
    × (handler_of 4 after ≡ ok (handler, after))
unfolding index_of is_known
handler_of-register_example =
    handler_of-register router 9 4 90 refl (omega arith) (omega arith) refl (omega arith)

-- "1.2:80".
abbrev known_servers : Servers
known_servers = (49 ∷ 46 ∷ 50 ∷ [], 80) ∷ []

enumerators_slots_example :
    (is_among EMsg.client_pending_game_launch_response enumerators ≡ true)
    × ((751 ≡ EMsg.client_pending_game_launch_response)
        → (proto_register ℕ ℕ 751 5 (Dispatch.new ℕ ℕ) ≡ undefined)
          × (dispatch_proto (Dispatch.new ℕ ℕ) (make_msg 751 true) ≡ undefined))
    × ((751 ≢ EMsg.client_pending_game_launch_response)
        → (proto_register ℕ ℕ 751 5 (Dispatch.new ℕ ℕ) ≢ undefined)
          × (dispatch_proto (Dispatch.new ℕ ℕ) (make_msg 751 true) ≢ undefined))
unfolding Dispatch.new
enumerators_slots_example = enumerators_slots (Dispatch.new ℕ ℕ) 5 751 refl refl refl

abbrev success : Msg MsgChannelEncryptResult.class
success = record {
  header = record { msg = 1305; target_job_id = 0; source_job_id = 0 };
  body = record { result = 1 };
  payload = [];
}

exec-handshake_example :
    (first second sent sealed : List ℕ) × (response : Msg MsgChannelEncryptResponse.class)
    × (serialize MsgChannelEncryptRequest.class toy_request ≡ ok first)
    × (serialize MsgChannelEncryptResult.class success ≡ ok second)
    × (response.header.msg ≡ EMsg.channel_encrypt_response)
    × (serialize MsgChannelEncryptResponse.class response ≡ ok sent)
    × (process_incoming_encrypted_message toy_cipher open_session.client.crypto sealed ≡ ok asked)
    × ((consume_frame toy table 1 first true
            >> consume_frame toy table 1 second true
            >> exec toy (product_info wanted))
          open_session
        ≡ (
          record open_session {
            client = record open_session.client {
              channel_secured = true;
              connection = async_send sealed (async_send sent Tcp.new);
            };
            emitted = channel_secured_event succeeded ∷ [];
            drawn = 2;
            next_jobid = 1;
          },
          ok tt,
        ))
exec-handshake_example =
    exec-handshake toy open_session toy_request success (product_info wanted) asked
      toy_cipher-IsCipher refl refl refl
      ((omega arith, omega arith, omega arith), refl, refl, refl, refl)
      ((omega arith, omega arith, omega arith), refl, refl, omega arith) asked_written (omega arith)
