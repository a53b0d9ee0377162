-- ===== src/Tests/Handlers.antt =====
-- Frames that are consumed and commands that are executed, with toy libraries.
use steam_min_cpp.Prelude.{
  ℕ, ◌≡◌, refl, true, false, some, List, [], ◌∷◌, ◌++◌, replicate, take, arith, inr, length, ltb,
  if◌then◌else◌,
}
use steam_min_cpp.Prelude.Results.{ok, throws, ◌>>=◌}
use steam_min_cpp.Stream
use steam_min_cpp.Stream.Bytes.{le_bytes}
use steam_min_cpp.Multi.Laws.{packed}
use steam_min_cpp.Events.{client_logon_event, channel_secured_event, succeeded, fail}
use steam_min_cpp.Externals.{Externals}
use steam_min_cpp.Session.{Session}
use steam_min_cpp.Internal.MsgHdrProtoBuf
use steam_min_cpp.Internal.MsgHdrProtoBuf.{MsgHdrProtoBuf}
use steam_min_cpp.Internal.MsgChannelEncryptRequest
use steam_min_cpp.Internal.MsgChannelEncryptResponse
use steam_min_cpp.Internal.MsgChannelEncryptResult
use steam_min_cpp.Message.{Msg, serialize, serialize_proto}
use steam_min_cpp.Crypto.Manager.{steam_public_key_der, process_incoming_encrypted_message}
use steam_min_cpp.Crypto
use steam_min_cpp.Tcp
use steam_min_cpp.Tcp.{async_send}
use steam_min_cpp.Client
use steam_min_cpp.Client.{dropped, frame_data}
use steam_min_cpp.Client.Lifecycle.{connects, disconnects, perform_all, frame_of, secured_forever}
use steam_min_cpp.MsgUtil.{make_msg}
use steam_min_cpp.Receive.{consume_frame, consume_all, gzip_decompress}
use steam_min_cpp.Receive.Tables.{table}
use steam_min_cpp.Receive.Handshake.{consume_frame-encrypt_result, consume_frame-encrypt_request}
use steam_min_cpp.Receive.Errors.{consume_frame_throws}
use steam_min_cpp.Receive.Nested.{consume_frame-multi, consume_frame-logon_response}
use steam_min_cpp.Enums.EMsg
use steam_min_cpp.Tests.Secure.{toy_cipher, toy_key}
use steam_min_cpp.Tests.Wire.{flag_protobuf, flag_protobuf-IsProtobuf, flag_header}

-- A frame in the toy Multi message.
abbrev inner_frame : List ℕ
inner_frame = 5 ∷ 0 ∷ 0 ∷ 0 ∷ []

abbrev pub toy : Externals
toy = record {
  cipher = toy_cipher;
  random = λ n. 1 ∷ 2 ∷ 3 ∷ [];
  gunzip = λ bytes. inr "not gzip";
  header = record {
    class = flag_protobuf;
    client_sessionid = λ m. 7;
    set_client_sessionid = λ n m. m;
    set_steamid = λ n m. m;
    set_jobid_source = λ n m. m;
  };
  multi = record {
    class = flag_protobuf;
    message_body = λ m. packed (inner_frame ∷ []);
    size_unzipped = λ m. 0;
  };
  logon = record {
    class = flag_protobuf;
    set_client_package_version = λ n m. m;
    set_protocol_version = λ n m. true;
  };
  logon_response = record {
    class = flag_protobuf;
    eresult = λ m. 1;
    client_supplied_steamid = λ m. 76561197960265728;
  };
  product_info_request = record { class = flag_protobuf; add_apps = λ id token m. true };
  product_info_response = record { class = flag_protobuf; apps = λ m. []; packages = λ m. [] };
}

abbrev pub open_session : Session
open_session = record {
  client = record {
    channel_secured = false;
    connection = Tcp.new;
    crypto = record { session_key = toy_key; hmac_secret = take 16 toy_key };
  };
  emitted = [];
  drawn = 0;
  next_jobid = 0;
}

abbrev pub secured_session : Session
secured_session = record open_session {
  client = record open_session.client { channel_secured = true };
}

-- EResult::Fail.
abbrev failure : Msg MsgChannelEncryptResult.class
failure = record {
  header = record { msg = 1305; target_job_id = 0; source_job_id = 0 };
  body = record { result = 2 };
  payload = [];
}

consume_frame-encrypt_result_example :
    (bytes : List ℕ) × (serialize MsgChannelEncryptResult.class failure ≡ ok bytes)
    × (consume_frame toy table 1 bytes true open_session ≡ (
      record open_session {
        emitted = channel_secured_event (fail "Failed to encrypt channel; bad server?") ∷ [];
      },
      ok tt,
    ))
consume_frame-encrypt_result_example =
    consume_frame-encrypt_result toy open_session 0 failure refl
      (omega arith, omega arith, omega arith) refl (omega arith) (omega arith)

abbrev pub toy_request : Msg MsgChannelEncryptRequest.class
toy_request = record {
  header = record { msg = 1303; target_job_id = 0; source_job_id = 5 };
  body = record { protocol_version = 1; universe = 1 };
  payload = replicate 16 3;
}

consume_frame-encrypt_request_example :
    let key =
      toy_cipher.rsa_oaep_sha1 steam_public_key_der (toy_key ++ replicate 16 3) (1 ∷ 2 ∷ 3 ∷ []) in
    (bytes : List ℕ) × (response : Msg MsgChannelEncryptResponse.class) × (sent : List ℕ)
    × (serialize MsgChannelEncryptRequest.class toy_request ≡ ok bytes)
    × (response.header.msg ≡ EMsg.channel_encrypt_response)
    × (response.payload ≡ key ++ (le_bytes 4 (toy_cipher.crc32 key) ++ (0 ∷ 0 ∷ 0 ∷ 0 ∷ [])))
    × (serialize MsgChannelEncryptResponse.class response ≡ ok sent)
    × (consume_frame toy table 1 bytes true open_session ≡ (
      record open_session {
        client = record open_session.client { connection = async_send sent Tcp.new };
        drawn = 1;
      },
      ok tt,
    ))
consume_frame-encrypt_request_example =
    consume_frame-encrypt_request toy open_session 0 toy_request refl
      (omega arith, omega arith, omega arith) refl refl refl refl

-- Too short for an encrypted frame.
abbrev short_frame : List ℕ
short_frame = 1 ∷ 2 ∷ 3 ∷ 4 ∷ []

thrown_short :
    consume_frame toy table 1 short_frame true secured_session
    ≡ (secured_session, throws "Invalid encrypted data")
unfolding consume_frame Client.consume_frame frame_data process_incoming_encrypted_message
    Crypto.symmetric_decrypt_hmac_iv
thrown_short = refl

consume_frame_throws_example :
    (secured_session ≡ secured_session)
    × (true ≡ true)
    × (true ≡ true)
    × (process_incoming_encrypted_message toy_cipher secured_session.client.crypto short_frame
        ≡ throws "Invalid encrypted data")
consume_frame_throws_example =
    consume_frame_throws toy table 1 short_frame true secured_session secured_session
      "Invalid encrypted data" thrown_short

abbrev multi_header : MsgHdrProtoBuf flag_protobuf
multi_header = record flag_header { msg = 1 }

abbrev multi_bytes : List ℕ
multi_bytes = 1 ∷ 0 ∷ 0 ∷ 128 ∷ 2 ∷ 0 ∷ 0 ∷ 0 ∷ 8 ∷ 1 ∷ 8 ∷ 1 ∷ []

multi_written :
    serialize_proto flag_protobuf flag_protobuf
      (record { header = multi_header; body = true; payload = [] })
    ≡ ok multi_bytes
unfolding serialize_proto Stream.◌>>=◌ MsgHdrProtoBuf.serialize Stream.pure Stream.◌>>◌ Stream.write
    Stream.writer Stream.write_raw make_msg
multi_written = refl

plain_multi : frame_data toy_cipher open_session.client multi_bytes false ≡ ok multi_bytes
unfolding frame_data
plain_multi = refl

toy_unzipped :
    (if ltb 0 (toy.multi.size_unzipped true)
      then gzip_decompress toy (toy.multi.message_body true)
      else ok (toy.multi.message_body true))
    ≡ ok (packed (inner_frame ∷ []) ++ [])
unfolding le_bytes
toy_unzipped = refl

consume_frame-multi_example :
    consume_frame toy table 2 multi_bytes false open_session
    ≡ consume_all (λ f. consume_frame toy table 1 f false) (inner_frame ∷ []) open_session
unfolding le_bytes
consume_frame-multi_example =
    consume_frame-multi toy open_session multi_bytes false 1 multi_header true (8 ∷ 1 ∷ [])
      (8 ∷ 1 ∷ []) multi_bytes (inner_frame ∷ []) [] flag_protobuf-IsProtobuf
      flag_protobuf-IsProtobuf refl refl refl multi_written (omega arith) plain_multi toy_unzipped
      (omega arith, tt) (omega arith) (omega arith)

abbrev logon_header : MsgHdrProtoBuf flag_protobuf
logon_header = record flag_header { msg = 751 }

abbrev logon_bytes : List ℕ
logon_bytes = 239 ∷ 2 ∷ 0 ∷ 128 ∷ 2 ∷ 0 ∷ 0 ∷ 0 ∷ 8 ∷ 1 ∷ 8 ∷ 1 ∷ []

logon_written :
    serialize_proto flag_protobuf flag_protobuf
      (record { header = logon_header; body = true; payload = [] })
    ≡ ok logon_bytes
unfolding serialize_proto Stream.◌>>=◌ MsgHdrProtoBuf.serialize Stream.pure Stream.◌>>◌ Stream.write
    Stream.writer Stream.write_raw make_msg
logon_written = refl

plain_logon : frame_data toy_cipher open_session.client logon_bytes false ≡ ok logon_bytes
unfolding frame_data
plain_logon = refl

consume_frame-logon_response_example : consume_frame toy table 1 logon_bytes false open_session ≡ (
  record open_session {
    emitted =
        client_logon_event succeeded
          (some (record { steamid = 76561197960265728; client_sessionid = 7 }))
        ∷ [];
  },
  ok tt,
)
consume_frame-logon_response_example =
    consume_frame-logon_response toy open_session logon_bytes false 0 logon_header true (8 ∷ 1 ∷ [])
      (8 ∷ 1 ∷ []) logon_bytes flag_protobuf-IsProtobuf flag_protobuf-IsProtobuf refl refl refl
      logon_written (omega arith) plain_logon

secured_forever_example :
    let after =
      perform_all (disconnects ∷ connects ("cm.example" ∷ []) true ∷ []) secured_session.client in
    (after.channel_secured ≡ true)
    × (after.crypto ≡ secured_session.client.crypto)
    × (Client.consume_frame toy_cipher after logon_bytes true
        ≡ Client.consume_frame toy_cipher secured_session.client logon_bytes true)
    × (Client.consume_frame toy_cipher secured_session.client logon_bytes true ≡ (
        if ltb (length logon_bytes) 4
        then ok dropped
        else (process_incoming_encrypted_message toy_cipher secured_session.client.crypto
              logon_bytes
            >>= frame_of)))
secured_forever_example =
    secured_forever toy_cipher (disconnects ∷ connects ("cm.example" ∷ []) true ∷ [])
      secured_session.client logon_bytes refl
