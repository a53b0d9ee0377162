-- ===== src/Receive/Handshake.antt =====
-- The messages of the handshake on a channel that is not secured yet, from the frame to the client
-- that they leave.
use steam_min_cpp.Prelude.{
  ℕ, suc, ◌+◌, ◌^◌, ◌≤◌, ◌<◌, ◌≡◌, refl, sym, ap, ◌∙◌, true, false, List, [], ◌∷◌, ◌++◌, length,
  take, ◌==◌, if◌then◌else◌, arith, le→not_ltb,
}
use steam_min_cpp.Prelude.Results.{Result, ok, ok_injective}
use steam_min_cpp.Prelude.Results
use steam_min_cpp.Stream.Bytes.{le_bytes, le_value}
use steam_min_cpp.Events.{channel_secured_event, succeeded, fail}
use steam_min_cpp.Externals.{Externals}
use steam_min_cpp.Session.{
  Session, ◌>>=◌, ◌>>◌, after, caught, lift, try_catch, emit, get_client, put_client,
  set_channel_secured, draw, send_msg,
}
use steam_min_cpp.Session.Sending.{send_msg_impl_plain}
use steam_min_cpp.Packet.{PacketMsg, packet_msg}
use steam_min_cpp.Dispatch.{calls, dispatch_msg}
use steam_min_cpp.Tcp.{async_send}
use steam_min_cpp.Client
use steam_min_cpp.Client.{CmClient, raw, is_encryption_msg, kind_of, frame_data, read_emsg}
use steam_min_cpp.Message.{Msg, serialize, of_packet}
use steam_min_cpp.Message.RoundTrip.{
  packet_of, message_bytes, message_front, message_size, written, received, parsed,
}
use steam_min_cpp.Handlers.Encryption.{
  handle_encrypt_request, handle_encrypt_result, answer_request, take_result,
}
use steam_min_cpp.Crypto.Manager.{generate_encryption_response, steam_public_key_der}
use steam_min_cpp.Crypto.Manager.Handshake.{generate_encryption_response-serialize}
use steam_min_cpp.Internal.MsgHdr
use steam_min_cpp.Internal.MsgChannelEncryptRequest
use steam_min_cpp.Internal.MsgChannelEncryptResponse
use steam_min_cpp.Internal.MsgChannelEncryptResult
use steam_min_cpp.Enums.EMsg
use steam_min_cpp.Enums.EResult
use steam_min_cpp.Receive.{consume_frame, dispatch, react, run_msg}
use steam_min_cpp.Receive.Tables.{
  table, MsgHandler, encrypt_request, encrypt_result, dispatched_request, dispatched_result,
}

module _ (x : Externals) (s : Session) (open_channel : s.client.channel_secured ≡ false)
    (bytes : List ℕ) (emsg : ℕ) (long : 4 ≤ length bytes) (front : le_value (take 4 bytes) ≡ emsg)
    (kind : is_encryption_msg emsg ≡ true) where
  taken : Client.consume_frame x.cipher s.client bytes true ≡ ok (raw emsg bytes)
  unfolding Client.consume_frame Results.◌>>=◌ frame_data read_emsg kind_of
  taken =
      rw
        (
          le→not_ltb 4 (length bytes) long,
          open_channel,
          Results.◌>>=◌,
          le→not_ltb 4 (length bytes) long,
          front,
          kind,
        )
        refl

  -- The handler that the message is dispatched to.
  handled :
      (depth : ℕ) (packet : PacketMsg) (fn : MsgHandler) (s' : Session)
      → packet_msg emsg bytes ≡ ok packet
      → dispatch_msg table packet.msg_type ≡ ok (calls fn)
      → run_msg x (λ f. consume_frame x table depth f false) fn packet s ≡ (s', ok tt)
      → consume_frame x table (suc depth) bytes true s ≡ (s', ok tt)
  unfolding consume_frame ◌>>=◌ after get_client lift try_catch dispatch react
  handled depth packet fn s' made found run = rw (taken, after, made, after, found, after, run) refl

taken_result :
    (s : Session) (packet : PacketMsg) (res : Msg MsgChannelEncryptResult.class)
    → of_packet MsgChannelEncryptResult.class packet ≡ ok res
    → let success = res.body.result == EResult.ok in
      handle_encrypt_result packet s ≡ (
        record s {
          client = record s.client { channel_secured = success };
          emitted =
              s.emitted
              ++ channel_secured_event
                  (if success then succeeded else fail "Failed to encrypt channel; bad server?")
                ∷ [];
        },
        ok tt,
      )
unfolding handle_encrypt_result ◌>>=◌ ◌>>◌ after lift take_result set_channel_secured get_client
    put_client emit Client.set_channel_secured
taken_result s packet res e = rw (e, after) refl

-- From the result that the server sends, serialised and received on a channel that is not secured, the
-- channel is secured exactly if it is EResult::OK; one `ChannelSecuredEvent` is emitted, which says
-- the same, and nothing else of the client changes.
pub consume_frame-encrypt_result :
    (x : Externals) (s : Session) (depth : ℕ) (m : Msg MsgChannelEncryptResult.class)
    → s.client.channel_secured ≡ false
    → MsgHdr.IsWf m.header
    → m.header.msg ≡ EMsg.channel_encrypt_result
    → m.body.result < 2 ^ 32
    → 24 + length m.payload < 2 ^ 63
    → let success = m.body.result == EResult.ok in
      (bytes : List ℕ) × (serialize MsgChannelEncryptResult.class m ≡ ok bytes)
      × (consume_frame x table (suc depth) bytes true s ≡ (
        record s {
          client = record s.client { channel_secured = success };
          emitted =
              s.emitted
              ++ channel_secured_event
                  (if success then succeeded else fail "Failed to encrypt channel; bad server?")
                ∷ [];
        },
        ok tt,
      ))
unfolding is_encryption_msg run_msg handle_encrypt_result
consume_frame-encrypt_result x s depth m o w n b fits = (
  message_bytes MsgChannelEncryptResult.class m,
  written MsgChannelEncryptResult.class m,
  handled x s o (message_bytes MsgChannelEncryptResult.class m) EMsg.channel_encrypt_result
      (omega (arith, message_size MsgChannelEncryptResult.class m w b (omega arith)))
      (message_front MsgChannelEncryptResult.class m w.0 ∙ n) refl depth _ encrypt_result _
      (received MsgChannelEncryptResult.class m w b (omega arith) EMsg.channel_encrypt_result)
      dispatched_result
      (taken_result s _ _
        (parsed MsgChannelEncryptResult.class m w b (omega arith) EMsg.channel_encrypt_result)),
)

answered_request :
    (x : Externals) (s : Session) (packet : PacketMsg)
    (response : Msg MsgChannelEncryptResponse.class) (sent : List ℕ)
    → s.client.channel_secured ≡ false
    → generate_encryption_response x.cipher s.client.crypto (x.random s.drawn) packet ≡ ok response
    → serialize MsgChannelEncryptResponse.class response ≡ ok sent
    → answer_request x packet s ≡ (
      record s {
        client = record s.client { connection = async_send sent s.client.connection };
        drawn = s.drawn + 1;
      },
      ok tt,
    )
unfolding answer_request ◌>>=◌ after draw get_client lift send_msg
answered_request x s packet response sent o g w =
    rw (g, after, w, after) (send_msg_impl_plain x sent (record s { drawn = s.drawn + 1 }) o)

not_caught :
    (x : Externals) (s s' : Session) (packet : PacketMsg)
    → answer_request x packet s ≡ (s', ok tt)
    → handle_encrypt_request x packet s ≡ (s', ok tt)
unfolding handle_encrypt_request try_catch caught
not_caught x s s' packet e = ap (caught λ m. emit (channel_secured_event (fail m))) e

-- The server's request for protocol version 1 and the public universe with a challenge of 16 bytes,
-- serialised and received on a channel that is not secured: what the client does is to hand one message
-- to `async_send`, in plain, a ChannelEncryptResponse with the session key and the challenge under RSA,
-- their CRC32 and four zeros. No event is emitted, and the channel is not secured by it.
pub consume_frame-encrypt_request :
    (x : Externals) (s : Session) (depth : ℕ) (request : Msg MsgChannelEncryptRequest.class)
    → s.client.channel_secured ≡ false
    → MsgHdr.IsWf request.header
    → request.header.msg ≡ EMsg.channel_encrypt_request
    → request.body.protocol_version ≡ 1
    → request.body.universe ≡ 1
    → length request.payload ≡ 16
    → let key =
        x.cipher.rsa_oaep_sha1 steam_public_key_der
          (s.client.crypto.session_key ++ request.payload)
          (x.random s.drawn) in
      (bytes : List ℕ) × (response : Msg MsgChannelEncryptResponse.class) × (sent : List ℕ)
      × (serialize MsgChannelEncryptRequest.class request ≡ ok bytes)
      × (response.header.msg ≡ EMsg.channel_encrypt_response)
      × (response.payload ≡ key ++ (le_bytes 4 (x.cipher.crc32 key) ++ (0 ∷ 0 ∷ 0 ∷ 0 ∷ [])))
      × (serialize MsgChannelEncryptResponse.class response ≡ ok sent)
      × (consume_frame x table (suc depth) bytes true s ≡ (
        record s {
          client = record s.client { connection = async_send sent s.client.connection };
          drawn = s.drawn + 1;
        },
        ok tt,
      ))
unfolding is_encryption_msg run_msg
consume_frame-encrypt_request x s depth request o w n v u l =
    let (bytes, packet, response, ser, recv, gen, number, payload) =
      generate_encryption_response-serialize x.cipher s.client.crypto (x.random s.drawn) request
        EMsg.channel_encrypt_request w v u l in
    let c = MsgChannelEncryptRequest.class in
    let body_IsWf : c.IsWf request.body = (omega arith, omega arith) in
    let same = ok_injective bytes (message_bytes c request) (sym ser ∙ written c request) in
    let sent = message_bytes MsgChannelEncryptResponse.class response in
    (
      bytes,
      response,
      sent,
      ser,
      number,
      payload,
      written MsgChannelEncryptResponse.class response,
      handled x s o bytes EMsg.channel_encrypt_request
          (omega (arith, ap length same, message_size c request w body_IsWf (omega arith)))
          (ap (λ t. le_value (take 4 t)) same ∙ message_front c request w.0 ∙ n) refl depth packet
          encrypt_request _ recv
          (ap (dispatch_msg table) (
              ap (λ p. p.msg_type)
                (ok_injective packet (packet_of c request EMsg.channel_encrypt_request) (
                  sym recv
                  ∙ ap (packet_msg EMsg.channel_encrypt_request) same
                  ∙ received c request w body_IsWf (omega arith) EMsg.channel_encrypt_request)))
            ∙ dispatched_request)
          (not_caught x s _ packet (
            answered_request x s packet response sent o gen
              (written MsgChannelEncryptResponse.class response))),
    )
