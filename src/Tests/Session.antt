-- ===== src/Tests/Session.antt =====
-- The client over a connection at concrete inputs.
use steam_min_cpp.Prelude.{ℕ, ◌≤◌, ◌<◌, ◌≡◌, refl, true, List, [], ◌∷◌, take, arith, inl}
use steam_min_cpp.Prelude.Results.{ok, undefined}
use steam_min_cpp.Stream.Bytes.{le_value}
use steam_min_cpp.Tcp
use steam_min_cpp.Tcp.{connecting}
use steam_min_cpp.Crypto.Manager.{process_outgoing_encrypted_message}
use steam_min_cpp.Client.{CmClient, new, start_session, consume_frame, kind_of}
use steam_min_cpp.Client.Lifecycle.{Call, connects, disconnects, perform_all, failed_connect_sticks}
use steam_min_cpp.Client.Incoming.{consume_frame-process_outgoing}
use steam_min_cpp.Tests.Secure.{toy_cipher, toy_cipher-IsCipher, toy_key}

abbrev client : CmClient
unfolding new
client = new Tcp.new (record { session_key = toy_key; hmac_secret = take 16 toy_key })

abbrev secured_client : CmClient
secured_client = record {
  channel_secured = true;
  connection = Tcp.new;
  crypto = record { session_key = toy_key; hmac_secret = take 16 toy_key };
}

abbrev retries : List Call
retries = disconnects ∷ connects ("cm.example" ∷ []) true ∷ []

new_is_disconnected : client.connection.state ≡ Tcp.disconnected
unfolding new Tcp.new
new_is_disconnected = refl

failed_connect_sticks_example :
    let after = perform_all retries (start_session [] true client).0 in
    (after.connection.state ≡ connecting) × (after.connection.pending ≡ client.connection.pending)
failed_connect_sticks_example =
    failed_connect_sticks [] true retries client new_is_disconnected (inl refl)

consume_frame-process_outgoing_example :
    (frame : List ℕ) × (process_outgoing_encrypted_message toy_cipher secured_client.crypto
        (5 ∷ 6 ∷ [])
        (1 ∷ 2 ∷ 3 ∷ [])
      ≡ ok frame)
    × ((4 ≤ 2)
        → consume_frame toy_cipher secured_client frame true
          ≡ ok (kind_of (le_value (take 4 (5 ∷ 6 ∷ []))) (5 ∷ 6 ∷ [])))
    × ((2 < 4) → consume_frame toy_cipher secured_client frame true ≡ undefined)
consume_frame-process_outgoing_example =
    consume_frame-process_outgoing toy_cipher secured_client (5 ∷ 6 ∷ []) (1 ∷ 2 ∷ 3 ∷ [])
      toy_cipher-IsCipher refl refl refl (omega arith)
