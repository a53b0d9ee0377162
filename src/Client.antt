-- ===== src/Client.antt =====
-- `CMClient` of src/network/cmclient.cpp and include/steamclient/network/cmclient.hpp over a TCP
-- connection, and the `SteamClient` of src/client.cpp that hands its calls on.
pub mod Incoming
pub mod Lifecycle
pub mod Errors
use steam_min_cpp.Prelude.{
  ℕ, ◌^◌, Bool, true, false, ◌&&◌, ◌||◌, List, [], ◌∷◌, length, take, ltb, ◌==◌, if◌then◌else◌,
  String,
}
use steam_min_cpp.Prelude.Results.{Result, ok, throws, undefined, ◌>>=◌}
use steam_min_cpp.Stream.Bytes.{le_value}
use steam_min_cpp.MsgUtil.{is_protobuf_msg}
use steam_min_cpp.Enums.EMsg
use steam_min_cpp.Crypto.{Cipher}
use steam_min_cpp.Crypto.Manager.{
  EncryptionManager, process_incoming_encrypted_message, process_outgoing_encrypted_message,
}
use steam_min_cpp.Tcp
use steam_min_cpp.Tcp.{
  TcpConnection, Outcome, network_connect, network_close, set_on_frame, async_send,
}

pub record CmClient : Type 0 where
  pub channel_secured : Bool
  pub connection : TcpConnection
  pub crypto : EncryptionManager

unfoldable pub new : TcpConnection → EncryptionManager → CmClient
new connection crypto = record { channel_secured = false; connection = connection; crypto = crypto }

-- The connection's `network_connect` may throw, and the exception is thrown on. `servers` and
-- `resolves` are its environment's answers.
unfoldable pub start_session : List String → Bool → CmClient → CmClient × Outcome
start_session servers resolves client =
    let (connection, outcome) = network_connect servers resolves (set_on_frame client.connection) in
    (record client { connection = connection }, outcome)

unfoldable pub is_connected : CmClient → Bool
is_connected client = Tcp.is_connected client.connection

unfoldable pub shutdown : CmClient → CmClient
shutdown client =
    if Tcp.is_connected client.connection
    then record client { connection = network_close client.connection }
    else client

-- `~SteamClient`, then `~CMClient`, which has the test and the call of `shutdown`, then the connection's
-- own destructor.
unfoldable pub destroy : CmClient → CmClient
unfolding shutdown Tcp.destroy
destroy client =
    let closed = shutdown (shutdown client) in
    record closed { connection = Tcp.destroy closed.connection }

unfoldable pub set_channel_secured : Bool → CmClient → CmClient
set_channel_secured val client = record client { channel_secured = val }

unfoldable pub is_encryption_msg : ℕ → Bool
is_encryption_msg emsg_code =
    emsg_code == EMsg.channel_encrypt_request
    || (emsg_code == EMsg.channel_encrypt_response || emsg_code == EMsg.channel_encrypt_result)

-- What a frame turns out to be: too short, a message of the handshake, a protobuf message, or a
-- struct message, with its number and its bytes.
pub data Frame : Type 0 where
  dropped : Frame
  raw : ℕ → List ℕ → Frame
  protobuf : ℕ → List ℕ → Frame
  struct_msg : ℕ → Frame

unfoldable pub kind_of : ℕ → List ℕ → Frame
kind_of emsg data_bytes =
    if is_encryption_msg emsg
    then raw emsg data_bytes
    else (if is_protobuf_msg emsg then protobuf emsg data_bytes else struct_msg emsg)

-- `data[0] | (data[1] << 8) | (data[2] << 16) | (data[3] << 24)`, out of bounds on shorter data.
unfoldable pub read_emsg : List ℕ → Result ℕ
read_emsg data_bytes =
    if ltb (length data_bytes) 4 then undefined else ok (le_value (take 4 data_bytes))

module _ (c : Cipher) where
  -- The bytes that are looked at: decrypted if the channel is secured.
  unfoldable pub frame_data : CmClient → List ℕ → Bool → Result (List ℕ)
  frame_data client frame encrypt =
      if encrypt && client.channel_secured
      then process_incoming_encrypted_message c client.crypto frame
      else ok frame

  -- `consume_frame` up to the dispatch. The exception of the decryption is thrown out of it.
  unfoldable pub consume_frame : CmClient → List ℕ → Bool → Result Frame
  unfolding ◌>>=◌
  consume_frame client frame encrypt = if ltb (length frame) 4 then ok dropped else (do
    data_bytes ← frame_data client frame encrypt
    emsg ← read_emsg data_bytes
    ok (kind_of emsg data_bytes))

  -- `random` is the generator's block for the encryption.
  unfoldable pub send_msg_impl : List ℕ → List ℕ → CmClient → Result CmClient
  unfolding ◌>>=◌
  send_msg_impl buffer random client =
      if client.channel_secured
      then (do
        sealed ← process_outgoing_encrypted_message c client.crypto buffer random
        ok (record client { connection = async_send sealed client.connection }))
      else ok (record client { connection = async_send buffer client.connection })
