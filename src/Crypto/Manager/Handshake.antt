-- ===== src/Crypto/Manager/Handshake.antt =====
-- The answer to the server's handshake, for the packets of requests and for any packet.
use steam_min_cpp.Stream.{reader}
use steam_min_cpp.Prelude.{
  dec_le, append_assoc, String, drop-drop, ℕ, ◌^◌, ◌<◌, ◌≡◌, ◌≢◌, refl, sym, ap, ◌∙◌, Bool, true,
  false, List, [], ◌∷◌, ◌++◌, length, drop, ◌==◌, arith, length-drop, le→not_ltb, ==_iff, ◌≤◌,
}
use steam_min_cpp.Prelude.Results.{ok_injective, Result, ok, throws, undefined, ◌>>=◌}
use steam_min_cpp.Packet.{PacketMsg, packet_msg}
use steam_min_cpp.Message.{Msg, new, serialize, of_packet, rest_of}
use steam_min_cpp.Message.RoundTrip.{of_packet-serialize, rest_of_lem}
use steam_min_cpp.Stream.Bytes.{le_bytes}
use steam_min_cpp.Internal.MsgHdr
use steam_min_cpp.Internal.MsgHdr.{MsgHdr}
use steam_min_cpp.Internal.MsgChannelEncryptRequest
use steam_min_cpp.Internal.MsgChannelEncryptResponse
use steam_min_cpp.Enums.EMsg
use steam_min_cpp.Crypto.{Cipher, crc_to_vector}
use steam_min_cpp.Crypto.Manager.{
  EncryptionManager, steam_public_key_der, skip_body, runtime_assert, respond, encryption_response,
  generate_encryption_response,
}

module _ (c : Cipher) (key : List ℕ) where
  response_emsg : (encryption_response c key).header.msg ≡ EMsg.channel_encrypt_response
  unfolding encryption_response new MsgChannelEncryptResponse.get_emsg
  response_emsg = refl

  response_payload :
      (encryption_response c key).payload
      ≡ key ++ (le_bytes 4 (c.crc32 key) ++ (0 ∷ 0 ∷ 0 ∷ 0 ∷ []))
  unfolding encryption_response crc_to_vector new
  response_payload = append_assoc key (le_bytes 4 (c.crc32 key)) (0 ∷ 0 ∷ 0 ∷ 0 ∷ [])

module _ (c : Cipher) (manager : EncryptionManager) (random : List ℕ) where
  abbrev pub key_for : List ℕ → List ℕ
  key_for challenge = c.rsa_oaep_sha1 steam_public_key_der (manager.session_key ++ challenge) random

  answered :
      (m : Msg MsgChannelEncryptRequest.class)
      → m.body.protocol_version ≡ 1
      → m.body.universe ≡ 1
      → length m.payload ≡ 24
      → respond c manager random m ≡ ok (encryption_response c (key_for (drop 8 m.payload)))
  unfolding respond ◌>>=◌ skip_body runtime_assert
  answered m v u l =
      rw
        (
          le→not_ltb 8 (length m.payload) (omega arith),
          (==_iff m.body.protocol_version 1).1 v,
          (==_iff m.body.universe 1).1 u,
          (==_iff (length (drop 8 m.payload)) 16).1 (omega (arith, length-drop 8 m.payload)),
        )
        refl

  asserted :
      {B : Type 0} (b : Bool) (message : String) (next : Result B)
      → next ≢ undefined
      → (runtime_assert b message >>= λ t. next) ≢ undefined
  unfolding ◌>>=◌ runtime_assert
  asserted true message next h = h
  asserted false message next h = λ e. cc

  made : (key : List ℕ) → ok (encryption_response c key) ≢ undefined
  made key e = cc

  -- Eight bytes of payload are enough.
  never_undefined :
      (m : Msg MsgChannelEncryptRequest.class)
      → 8 ≤ length m.payload
      → respond c manager random m ≢ undefined
  unfolding respond ◌>>=◌ skip_body
  never_undefined m l = rw (le→not_ltb 8 (length m.payload) l) (
      asserted (m.body.protocol_version == 1) _ _ (
        asserted (m.body.universe == 1) _ _
          (asserted (length (drop 8 m.payload) == 16) _ _ (made (key_for (drop 8 m.payload))))))

  -- What is generated from a packet that holds a request.
  generated :
      (packet : PacketMsg) (m : Msg MsgChannelEncryptRequest.class)
      → of_packet MsgChannelEncryptRequest.class packet ≡ ok m
      → generate_encryption_response c manager random packet ≡ respond c manager random m
  unfolding generate_encryption_response ◌>>=◌
  generated packet m e = rw (e, ◌>>=◌) refl

-- Challenge and response: from a request for protocol version 1 and the public universe with 16 bytes
-- of challenge, serialised and received, the manager makes a response. Its payload is the session
-- key and the challenge under RSA, the CRC32 of that in four little-endian bytes, and four zeros.
pub generate_encryption_response-serialize :
    (c : Cipher) (manager : EncryptionManager) (random : List ℕ)
    (request : Msg MsgChannelEncryptRequest.class) (emsg : ℕ)
    → MsgHdr.IsWf request.header
    → request.body.protocol_version ≡ 1
    → request.body.universe ≡ 1
    → length request.payload ≡ 16
    → let key =
        c.rsa_oaep_sha1 steam_public_key_der (manager.session_key ++ request.payload) random in
      (bytes : List ℕ) × (packet : PacketMsg) × (response : Msg MsgChannelEncryptResponse.class)
      × (serialize MsgChannelEncryptRequest.class request ≡ ok bytes)
      × (packet_msg emsg bytes ≡ ok packet)
      × (generate_encryption_response c manager random packet ≡ ok response)
      × (response.header.msg ≡ EMsg.channel_encrypt_response)
      × (response.payload ≡ key ++ (le_bytes 4 (c.crc32 key) ++ (0 ∷ 0 ∷ 0 ∷ 0 ∷ [])))
generate_encryption_response-serialize c manager random request emsg h v u l =
    let (bytes, packet, written, size, received, parsed, tail) =
      of_packet-serialize MsgChannelEncryptRequest.class request emsg h (omega arith, omega arith)
        (omega arith) in
    (
      bytes,
      packet,
      encryption_response c (key_for c manager random request.payload),
      written,
      received,
      generated c manager random packet (record request { payload = drop 20 bytes }) parsed
          ∙ answered c manager random (record request { payload = drop 20 bytes }) v u
              (omega (arith, size, length-drop 20 bytes))
          ∙ ap (λ (t : List ℕ). ok (encryption_response c (key_for c manager random t)))
              (drop-drop 8 20 bytes ∙ tail),
      response_emsg c (key_for c manager random request.payload),
      response_payload c (key_for c manager random request.payload),
    )

abbrev packet_with : ℕ → MsgHdr → List ℕ → PacketMsg
packet_with emsg header bytes = record {
  msg_type = emsg;
  header = header;
  payload = bytes;
  body_offset = 20;
}

module _ (bytes : List ℕ) (emsg : ℕ) (fits : length bytes < 2 ^ 63) where
  -- The packet that is received from twenty bytes or more.
  long_enough :
      20 ≤ length bytes
      → (header : MsgHdr) × (packet_msg emsg bytes ≡ ok (packet_with emsg header bytes))
  unfolding packet_msg ◌>>=◌ reader
  long_enough h =
      let (header, read) = MsgHdr.class.laws.consumes.enough bytes 0 fits (omega arith) in
      (header, rw (read, ◌>>=◌) refl)

  too_short : length bytes < 20 → packet_msg emsg bytes ≡ throws "Stream underflow"
  unfolding packet_msg ◌>>=◌ reader
  too_short h =
      rw (MsgHdr.class.laws.consumes.short bytes 0 fits (omega arith) (omega arith), ◌>>=◌) refl

  received_packet :
      (packet : PacketMsg)
      → packet_msg emsg bytes ≡ ok packet
      → (20 ≤ length bytes) × ((header : MsgHdr) × (packet ≡ packet_with emsg header bytes))
  received_packet packet e = elim (dec_le 20 (length bytes)) [
    | yes h ↦
        let (header, made_of) = long_enough h in
        (h, (header, ok_injective packet (packet_with emsg header bytes) (sym e ∙ made_of)))
    | no h ↦ absurd (refused (too_short (omega arith)))
  ]
    where
      refused : packet_msg emsg bytes ≡ throws "Stream underflow" → ⊥
      refused short = cc (sym short ∙ e)

module _ (c : Cipher) (manager : EncryptionManager) (random bytes : List ℕ) (emsg : ℕ)
    (header : MsgHdr) (fits : length bytes < 2 ^ 63) (long : 20 ≤ length bytes) where
  abbrev packet_in : PacketMsg
  packet_in = packet_with emsg header bytes

  with_request :
      28 ≤ length bytes → generate_encryption_response c manager random packet_in ≢ undefined
  unfolding of_packet
  with_request h =
      let (body, read) = MsgChannelEncryptRequest.class.laws.consumes.enough bytes 20 fits h in
      let m : Msg MsgChannelEncryptRequest.class = record {
        header = header;
        body = body;
        payload = rest_of 20 bytes;
      } in
      rw (generated c manager random packet_in m (rw (read, of_packet) refl)) (
        never_undefined c manager random m
          (rw (rest_of_lem 20 bytes) (omega (arith, length-drop 20 bytes))))

  without_request :
      length bytes < 28 → generate_encryption_response c manager random packet_in ≢ undefined
  unfolding generate_encryption_response of_packet ◌>>=◌
  without_request h =
      rw
        (
          MsgChannelEncryptRequest.class.laws.consumes.short bytes 20 fits long (omega arith),
          ◌>>=◌,
          of_packet,
        )
        λ e. cc

-- No packet that can be received makes the answer run into undefined behaviour: the eight bytes that
-- it skips in front of the challenge are there whenever the request can be read.
pub generate_encryption_response_defined :
    (c : Cipher) (manager : EncryptionManager) (random bytes : List ℕ) (emsg : ℕ)
    (packet : PacketMsg)
    → length bytes < 2 ^ 63
    → packet_msg emsg bytes ≡ ok packet
    → generate_encryption_response c manager random packet ≢ undefined
generate_encryption_response_defined c manager random bytes emsg packet fits e =
    let (long, (header, same)) = received_packet bytes emsg fits packet e in
    rw same (elim (dec_le 28 (length bytes)) [
      | yes h ↦ with_request c manager random bytes emsg header fits long h
      | no h ↦ without_request c manager random bytes emsg header fits long (omega arith)
    ])
