-- ===== src/Handlers/Encryption.antt =====
-- src/routing/events/handlers/encryption_handler.cpp: the messages of the channel's handshake.
use steam_min_cpp.Prelude.{Bool, ◌==◌, if◌then◌else◌}
use steam_min_cpp.Events.{channel_secured_event, succeeded, fail}
use steam_min_cpp.Externals.{Externals}
use steam_min_cpp.Session.{
  Step, ◌>>=◌, ◌>>◌, lift, try_catch, emit, get_client, set_channel_secured, draw, send_msg,
}
use steam_min_cpp.Packet.{PacketMsg}
use steam_min_cpp.Message
use steam_min_cpp.Crypto.Manager.{generate_encryption_response}
use steam_min_cpp.Internal.MsgChannelEncryptResponse
use steam_min_cpp.Internal.MsgChannelEncryptResult
use steam_min_cpp.Enums.EResult

module _ (x : Externals) where
  -- The body of the `try` block.
  unfoldable pub answer_request : PacketMsg → Step (Unit {0})
  unfolding ◌>>=◌ draw get_client lift send_msg
  answer_request packet = do
    random ← draw x
    client ← get_client
    response ← lift (generate_encryption_response x.cipher client.crypto random packet)
    send_msg x MsgChannelEncryptResponse.class response

  unfoldable pub handle_encrypt_request : PacketMsg → Step (Unit {0})
  unfolding answer_request try_catch emit fail
  handle_encrypt_request packet =
      try_catch (answer_request packet) λ e. emit (channel_secured_event (fail e))

-- What follows the reading of the result.
unfoldable pub take_result : Bool → Step (Unit {0})
unfolding ◌>>◌ set_channel_secured emit succeeded fail
take_result success =
    set_channel_secured success
    >> emit (
        channel_secured_event
          (if success then succeeded else fail "Failed to encrypt channel; bad server?"))

unfoldable pub handle_encrypt_result : PacketMsg → Step (Unit {0})
unfolding ◌>>=◌ lift take_result
handle_encrypt_result packet = do
  res ← lift (Message.of_packet MsgChannelEncryptResult.class packet)
  take_result (res.body.result == EResult.ok)
