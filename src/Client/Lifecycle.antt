-- ===== src/Client/Lifecycle.antt =====
-- Connecting and disconnecting through the client.
use steam_min_cpp.Prelude.{
  ℕ, arith, ◌≡◌, refl, sym, ap, length, ltb, if◌then◌else◌, ◌∙◌, Bool, true, false, List, [], ◌∷◌,
  ◌⊎◌, String,
}
use steam_min_cpp.Prelude.Results.{Result, ok, ◌>>=◌}
use steam_min_cpp.Crypto.{Cipher}
use steam_min_cpp.Crypto.Manager.{EncryptionManager, process_incoming_encrypted_message}
use steam_min_cpp.Tcp
use steam_min_cpp.Tcp.{
  TcpConnection, ConnectionState, connecting, disconnected, connected, Op, Outcome, thrown,
  returned, network_connect, set_on_frame,
}
use steam_min_cpp.Client.{
  CmClient, Frame, dropped, start_session, shutdown, destroy, frame_data, read_emsg, kind_of,
  consume_frame,
}

-- A call of `SteamClient`: `connect`, with what its environment answers, or `disconnect`.
pub data Call : Type 0 where
  connects : List String → Bool → Call
  disconnects : Call

unfoldable pub perform : Call → CmClient → CmClient
perform (connects servers resolves) client = (start_session servers resolves client).0
perform disconnects client = shutdown client

unfoldable pub perform_all : List Call → CmClient → CmClient
perform_all [] client = client
perform_all (call ∷ calls) client = perform_all calls (perform call client)

-- The environment's answers that make a connect throw.
abbrev pub Fails : List String → Bool → Type 0
Fails servers resolves = (servers ≡ []) ⊎ (resolves ≡ false)

abbrev pub Stuck : CmClient → List Op → Type 0
Stuck client pending =
    (client.connection.state ≡ connecting) × (client.connection.pending ≡ pending)

perform-Stuck :
    (call : Call) (client : CmClient) (pending : List Op)
    → Stuck client pending
    → Stuck (perform call client) pending
unfolding perform start_session network_connect set_on_frame shutdown Tcp.is_connected
perform-Stuck (connects servers resolves) client pending (s, p) = ground arith
perform-Stuck disconnects client pending (s, p) = ground arith

perform_all-Stuck :
    (calls : List Call) (client : CmClient) (pending : List Op)
    → Stuck client pending
    → Stuck (perform_all calls client) pending
unfolding perform_all
perform_all-Stuck [] client pending s = s
perform_all-Stuck (call ∷ calls) client pending s =
    perform_all-Stuck calls (perform call client) pending (perform-Stuck call client pending s)

failed-Stuck :
    (servers : List String) (resolves : Bool) (client : CmClient)
    → client.connection.state ≡ disconnected
    → Fails servers resolves
    → Stuck (start_session servers resolves client).0 client.connection.pending
unfolding start_session network_connect set_on_frame
failed-Stuck [] resolves client d f = ground arith
failed-Stuck (s ∷ servers) true client d f = ground arith
failed-Stuck (s ∷ servers) false client d f = ground arith

-- When a connect of a disconnected client finds no servers, or the resolver throws, the connection
-- stays CONNECTING through all further connects and disconnects, whatever the servers and the
-- resolver answer then, and none of them starts an operation.
pub failed_connect_sticks :
    (servers : List String) (resolves : Bool) (calls : List Call) (client : CmClient)
    → client.connection.state ≡ disconnected
    → Fails servers resolves
    → let after = perform_all calls (start_session servers resolves client).0 in
      (after.connection.state ≡ connecting) × (after.connection.pending ≡ client.connection.pending)
failed_connect_sticks servers resolves calls client d f =
    perform_all-Stuck calls (start_session servers resolves client).0 client.connection.pending
      (failed-Stuck servers resolves client d f)

perform-secured :
    (call : Call) (client : CmClient)
    → ((perform call client).channel_secured ≡ client.channel_secured)
      × ((perform call client).crypto ≡ client.crypto)
unfolding perform start_session shutdown
perform-secured (connects servers resolves) client = (refl, refl)
perform-secured disconnects client = ground arith

perform_all-secured :
    (calls : List Call) (client : CmClient)
    → ((perform_all calls client).channel_secured ≡ client.channel_secured)
      × ((perform_all calls client).crypto ≡ client.crypto)
unfolding perform_all
perform_all-secured [] client = (refl, refl)
perform_all-secured (call ∷ calls) client =
    let (secured, crypto) = perform-secured call client in
    let (all_secured, all_crypto) = perform_all-secured calls (perform call client) in
    (all_secured ∙ secured, all_crypto ∙ crypto)

-- The number of a decrypted frame tells its kind.
abbrev pub frame_of : List ℕ → Result Frame
frame_of data_bytes = read_emsg data_bytes >>= λ emsg. ok (kind_of emsg data_bytes)

abbrev read_with : Cipher → EncryptionManager → List ℕ → Result Frame
read_with c crypto frame =
    if ltb (length frame) 4
    then ok dropped
    else (process_incoming_encrypted_message c crypto frame >>= frame_of)

read_under :
    (c : Cipher) (client : CmClient) (frame : List ℕ)
    → client.channel_secured ≡ true
    → consume_frame c client frame true ≡ read_with c client.crypto frame
unfolding consume_frame frame_data
read_under c client frame secured = rw secured refl

-- The client's `disconnect` and `connect`, called in any number and order on a client whose channel is
-- secured, with no frame received between them, leave the channel secured under the same keys. The
-- frame that is received next is read as it would have been before the calls: dropped if it has fewer
-- than four bytes, and otherwise decrypted with the keys of the old session, whichever server sent it.
pub secured_forever :
    (c : Cipher) (calls : List Call) (client : CmClient) (frame : List ℕ)
    → client.channel_secured ≡ true
    → let after = perform_all calls client in
      (after.channel_secured ≡ true)
      × (after.crypto ≡ client.crypto)
      × (consume_frame c after frame true ≡ consume_frame c client frame true)
      × (consume_frame c client frame true ≡ (
          if ltb (length frame) 4
          then ok dropped
          else (process_incoming_encrypted_message c client.crypto frame >>= frame_of)))
secured_forever c calls client frame secured =
    let (kept, crypto) = perform_all-secured calls client in
    (
      kept ∙ secured,
      crypto,
      read_under c (perform_all calls client) frame (kept ∙ secured)
          ∙ ap (λ (m : EncryptionManager). read_with c m frame) crypto
          ∙ sym (read_under c client frame secured),
      read_under c client frame secured,
    )

-- The destructors leave no connection open, and every pending operation pending: its handler, which
-- uses the connection, is still to run.
destroy_pending :
    (client : CmClient)
    → (Tcp.is_connected (destroy client).connection ≡ false)
      × ((destroy client).connection.pending ≡ client.connection.pending)
unfolding destroy shutdown Tcp.destroy Tcp.is_connected
destroy_pending client = (ground arith, ground arith)
