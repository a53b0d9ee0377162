-- ===== src/Crypto/Manager.antt =====
-- `EncryptionManager` of src/crypto/crypto.cpp and include/steamclient/crypto/crypto.hpp: the keys of
-- the channel and the answer to the server's handshake.
pub mod Handshake
use steam_min_cpp.Prelude.{
  ℕ, Bool, true, false, not, List, [], ◌∷◌, ◌++◌, length, take, drop, ltb, ◌==◌, if◌then◌else◌,
  String,
}
use steam_min_cpp.Prelude.Results.{Result, ok, throws, undefined, ◌>>=◌}
use steam_min_cpp.Crypto.{
  Cipher, crc_to_vector, symmetric_encrypt_hmac_iv, symmetric_decrypt_hmac_iv,
}
use steam_min_cpp.Packet.{PacketMsg}
use steam_min_cpp.Message.{Msg, new, of_packet}
use steam_min_cpp.Internal.MsgChannelEncryptRequest
use steam_min_cpp.Internal.MsgChannelEncryptResponse
use steam_min_cpp.Enums.EUniverse

abbrev pub steam_public_key_der : List ℕ
steam_public_key_der =
    0x30 ∷ 0x81 ∷ 0x9d ∷ 0x30 ∷ 0x0d ∷ 0x06 ∷ 0x09 ∷ 0x2a ∷ 0x86 ∷ 0x48 ∷ 0x86 ∷ 0xf7 ∷ 0x0d ∷ 0x01
    ∷ 0x01 ∷ 0x01 ∷ 0x05 ∷ 0x00 ∷ 0x03 ∷ 0x81 ∷ 0x8b ∷ 0x00 ∷ 0x30 ∷ 0x81 ∷ 0x87 ∷ 0x02 ∷ 0x81
    ∷ 0x81 ∷ 0x00 ∷ 0xdf ∷ 0xec ∷ 0x1a ∷ 0xd6 ∷ 0x2c ∷ 0x10 ∷ 0x66 ∷ 0x2c ∷ 0x17 ∷ 0x35 ∷ 0x3a
    ∷ 0x14 ∷ 0xb0 ∷ 0x7c ∷ 0x59 ∷ 0x11 ∷ 0x7f ∷ 0x9d ∷ 0xd3 ∷ 0xd8 ∷ 0x2b ∷ 0x7a ∷ 0xe3 ∷ 0xe0
    ∷ 0x15 ∷ 0xcd ∷ 0x19 ∷ 0x1e ∷ 0x46 ∷ 0xe8 ∷ 0x7b ∷ 0x87 ∷ 0x74 ∷ 0xa2 ∷ 0x18 ∷ 0x46 ∷ 0x31
    ∷ 0xa9 ∷ 0x03 ∷ 0x14 ∷ 0x79 ∷ 0x82 ∷ 0x8e ∷ 0xe9 ∷ 0x45 ∷ 0xa2 ∷ 0x49 ∷ 0x12 ∷ 0xa9 ∷ 0x23
    ∷ 0x68 ∷ 0x73 ∷ 0x89 ∷ 0xcf ∷ 0x69 ∷ 0xa1 ∷ 0xb1 ∷ 0x61 ∷ 0x46 ∷ 0xbd ∷ 0xc1 ∷ 0xbe ∷ 0xbf
    ∷ 0xd6 ∷ 0x01 ∷ 0x1b ∷ 0xd8 ∷ 0x81 ∷ 0xd4 ∷ 0xdc ∷ 0x90 ∷ 0xfb ∷ 0xfe ∷ 0x4f ∷ 0x52 ∷ 0x73
    ∷ 0x66 ∷ 0xcb ∷ 0x95 ∷ 0x70 ∷ 0xd7 ∷ 0xc5 ∷ 0x8e ∷ 0xba ∷ 0x1c ∷ 0x7a ∷ 0x33 ∷ 0x75 ∷ 0xa1
    ∷ 0x62 ∷ 0x34 ∷ 0x46 ∷ 0xbb ∷ 0x60 ∷ 0xb7 ∷ 0x80 ∷ 0x68 ∷ 0xfa ∷ 0x13 ∷ 0xa7 ∷ 0x7a ∷ 0x8a
    ∷ 0x37 ∷ 0x4b ∷ 0x9e ∷ 0xc6 ∷ 0xf4 ∷ 0x5d ∷ 0x5f ∷ 0x3a ∷ 0x99 ∷ 0xf9 ∷ 0x9e ∷ 0xc4 ∷ 0x3a
    ∷ 0xe9 ∷ 0x63 ∷ 0xa2 ∷ 0xbb ∷ 0x88 ∷ 0x19 ∷ 0x28 ∷ 0xe0 ∷ 0xe7 ∷ 0x14 ∷ 0xc0 ∷ 0x42 ∷ 0x89
    ∷ 0x02 ∷ 0x01 ∷ 0x11 ∷ []

pub record EncryptionManager : Type 0 where
  pub session_key : List ℕ
  pub hmac_secret : List ℕ

-- `random` is the block of 32 bytes that the generator gives.
unfoldable pub new_manager : List ℕ → EncryptionManager
new_manager random = record { session_key = random; hmac_secret = take 16 random }

-- `RUNTIME_ASSERT`, whose text is shortened to its message.
unfoldable pub runtime_assert : Bool → String → Result (Unit {0})
runtime_assert true message = ok tt
runtime_assert false message = throws message

-- `std::vector(payload.begin() + 8, payload.end())`.
unfoldable pub skip_body : List ℕ → Result (List ℕ)
skip_body payload = if ltb (length payload) 8 then undefined else ok (drop 8 payload)

module _ (c : Cipher) where
  unfoldable pub process_incoming_encrypted_message : EncryptionManager → List ℕ → Result (List ℕ)
  process_incoming_encrypted_message manager frame =
      symmetric_decrypt_hmac_iv c frame manager.session_key manager.hmac_secret

  -- `random` is the block that the generator gives for the initialization vector.
  unfoldable pub process_outgoing_encrypted_message :
      EncryptionManager → List ℕ → List ℕ → Result (List ℕ)
  process_outgoing_encrypted_message manager frame random =
      symmetric_encrypt_hmac_iv c frame manager.session_key manager.hmac_secret random

  -- The three `WriteBytes` on the response's payload.
  unfoldable pub encryption_response : List ℕ → Msg MsgChannelEncryptResponse.class
  encryption_response encrypted_key =
      let response =
        new MsgChannelEncryptResponse.class
          (MsgChannelEncryptResponse.get_emsg MsgChannelEncryptResponse.new) in
      record response {
        payload =
            ((response.payload ++ encrypted_key) ++ crc_to_vector (c.crc32 encrypted_key))
            ++ (0 ∷ 0 ∷ 0 ∷ 0 ∷ []);
      }

  -- What follows the reading of the request. `random` is what the generator gives for the padding of
  -- RSA.
  unfoldable pub respond :
      EncryptionManager
      → List ℕ
      → Msg MsgChannelEncryptRequest.class
      → Result (Msg MsgChannelEncryptResponse.class)
  unfolding ◌>>=◌ runtime_assert skip_body
  respond manager random request = do
    challenge ← skip_body request.payload
    _ ←
        runtime_assert (request.body.protocol_version == 1)
          "Encryption handshake protocol version mismatch!"
    _ ← runtime_assert (request.body.universe == EUniverse.public) "Expected public universe"
    _ ← runtime_assert (length challenge == 16) "Expected 16 byte handshake"
    ok (
        encryption_response
          (c.rsa_oaep_sha1 steam_public_key_der (manager.session_key ++ challenge) random))

  unfoldable pub generate_encryption_response :
      EncryptionManager → List ℕ → PacketMsg → Result (Msg MsgChannelEncryptResponse.class)
  unfolding ◌>>=◌
  generate_encryption_response manager random packet = do
    request ← of_packet MsgChannelEncryptRequest.class packet
    respond manager random request
