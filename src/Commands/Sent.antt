-- ===== src/Commands/Sent.antt =====
-- What leaves the client when a command of src/routing/commands/handlers is executed.
use steam_min_cpp.Prelude.{
  ℕ, ◌+◌, ◌%◌, ◌^◌, ◌<◌, ◌≡◌, refl, ap, ◌∙◌, Bool, true, false, none, List, [], ◌∷◌, ◌++◌, length,
  if◌then◌else◌,
}
use steam_min_cpp.Prelude.Results.{Result, ok}
use steam_min_cpp.Events.{
  client_logon_event, fail, GetProductInfo, Command, anonymous_login, client_logoff, product_info,
}
use steam_min_cpp.Externals.{Externals}
use steam_min_cpp.Session.{
  Session, Step, ◌>>=◌, after, finish, lift, emit, get_client, generate_jobid, send_proto,
}
use steam_min_cpp.Session.Sending.{send_msg_impl_plain, send_msg_impl_sealed}
use steam_min_cpp.Internal.Protobuf.{Protobuf}
use steam_min_cpp.Message.{MsgProto, serialize_proto}
use steam_min_cpp.Tcp.{async_send}
use steam_min_cpp.Crypto.{IsCipher}
use steam_min_cpp.Crypto.Manager.{
  process_incoming_encrypted_message, process_outgoing_encrypted_message,
}
use steam_min_cpp.Crypto.RoundTrip.{symmetric_decrypt-symmetric_encrypt}
use steam_min_cpp.Commands.{
  logon_message, logoff_message, product_info_message, exec_anon_logon, exec_logoff,
  exec_get_product_info, exec,
}

-- A message on a channel that is secured, and on one that is not.
module _ (x : Externals) (s : Session) (b : Protobuf) (msg : MsgProto (x.header.class) b)
    (data_bytes : List ℕ) (written : serialize_proto (x.header.class) b msg ≡ ok data_bytes) where
  sent_plain :
      s.client.channel_secured ≡ false
      → send_proto x b msg s ≡ (
        record s {
          client = record s.client { connection = async_send data_bytes s.client.connection };
        },
        ok tt,
      )
  unfolding send_proto ◌>>=◌ after lift
  sent_plain e = rw (written, after) (send_msg_impl_plain x data_bytes s e)

  sent_sealed :
      (sealed : List ℕ)
      → s.client.channel_secured ≡ true
      → process_outgoing_encrypted_message x.cipher s.client.crypto data_bytes (x.random s.drawn)
        ≡ ok sealed
      → send_proto x b msg s ≡ (
        record s {
          client = record s.client { connection = async_send sealed s.client.connection };
          drawn = s.drawn + 1;
        },
        ok tt,
      )
  unfolding send_proto ◌>>=◌ after lift
  sent_sealed sealed e p = rw (written, after) (send_msg_impl_sealed x data_bytes s sealed e p)

-- On a channel that is not secured neither a logon nor a logoff sends anything: the logon emits one
-- failed `ClientLogonEvent`, without a SteamID and a session number, and the logoff does nothing.
-- `GetProductInfo` is sent all the same, and in plain.
pub exec_unsecured :
    (x : Externals) (s : Session) (req : GetProductInfo) (data_bytes : List ℕ)
    → s.client.channel_secured ≡ false
    → serialize_proto
        (x.header.class)
        (x.product_info_request.class)
        (product_info_message x req s.next_jobid)
      ≡ ok data_bytes
    → (exec x anonymous_login s ≡ (
      record s { emitted = s.emitted ++ client_logon_event (fail "Channel not secured") none ∷ [] },
      ok tt,
    ))
      × (exec x client_logoff s ≡ (s, ok tt))
      × (exec x (product_info req) s ≡ (
        record s {
          client = record s.client { connection = async_send data_bytes s.client.connection };
          next_jobid = (s.next_jobid + 1) % 2 ^ 64;
        },
        ok tt,
      ))
unfolding exec exec_anon_logon exec_logoff exec_get_product_info ◌>>=◌ after get_client emit finish
    generate_jobid
exec_unsecured x s req data_bytes e w = (
  rw e refl,
  rw e refl,
  sent_plain x (record s { next_jobid = (s.next_jobid + 1) % 2 ^ 64 }) _ _ data_bytes w e,
)

-- The bytes of a command's message, and the counter of jobs behind it.
abbrev pub message_bytes : Externals → ℕ → Command → Result (List ℕ)
message_bytes x job anonymous_login =
    serialize_proto (x.header.class) (x.logon.class) (logon_message x)
message_bytes x job client_logoff =
    serialize_proto (x.header.class) (x.logon.class) (logoff_message x)
message_bytes x job (product_info req) =
    serialize_proto (x.header.class) (x.product_info_request.class) (product_info_message x req job)

abbrev pub next_job : ℕ → Command → ℕ
next_job job anonymous_login = job
next_job job client_logoff = job
next_job job (product_info req) = (job + 1) % 2 ^ 64

chosen :
    (s : Session) (m k : Step (Unit {0}))
    → s.client.channel_secured ≡ true
    → (if s.client.channel_secured then m else k) s ≡ m s
chosen s m k e = ap (λ (b : Bool). (if b then m else k) s) e

exec_sealed :
    (x : Externals) (s : Session) (command : Command) (data_bytes sealed : List ℕ)
    → s.client.channel_secured ≡ true
    → message_bytes x s.next_jobid command ≡ ok data_bytes
    → process_outgoing_encrypted_message x.cipher s.client.crypto data_bytes (x.random s.drawn)
      ≡ ok sealed
    → exec x command s ≡ (
      record s {
        client = record s.client { connection = async_send sealed s.client.connection };
        drawn = s.drawn + 1;
        next_jobid = next_job s.next_jobid command;
      },
      ok tt,
    )
unfolding exec exec_anon_logon exec_logoff exec_get_product_info ◌>>=◌ after get_client
    generate_jobid
exec_sealed x s anonymous_login data_bytes sealed e w p =
    chosen s _ _ e ∙ sent_sealed x s _ (logon_message x) data_bytes w sealed e p
exec_sealed x s client_logoff data_bytes sealed e w p =
    chosen s _ _ e ∙ sent_sealed x s _ (logoff_message x) data_bytes w sealed e p
exec_sealed x s (product_info req) data_bytes sealed e w p =
    sent_sealed x (record s { next_jobid = (s.next_jobid + 1) % 2 ^ 64 }) _
      (product_info_message x req s.next_jobid) data_bytes w sealed e p

-- On a secured channel with a 32-byte key each of the three commands hands exactly one message to
-- `async_send`: the encryption, which the other end decrypts under the same keys, of the bytes of the
-- command's message. No event is emitted, and only `GetProductInfo` takes a job number.
pub exec_secured :
    (x : Externals) (s : Session) (command : Command) (data_bytes : List ℕ)
    → IsCipher x.cipher
    → s.client.channel_secured ≡ true
    → length s.client.crypto.session_key ≡ 32
    → length (x.random s.drawn) ≡ 3
    → message_bytes x s.next_jobid command ≡ ok data_bytes
    → length data_bytes < 2 ^ 63
    → (sealed : List ℕ) × (process_incoming_encrypted_message x.cipher s.client.crypto sealed
        ≡ ok data_bytes)
      × (exec x command s ≡ (
        record s {
          client = record s.client { connection = async_send sealed s.client.connection };
          drawn = s.drawn + 1;
          next_jobid = next_job s.next_jobid command;
        },
        ok tt,
      ))
unfolding process_outgoing_encrypted_message process_incoming_encrypted_message
exec_secured x s command data_bytes law e k r w fits =
    let (sealed, encrypted, size, same, plain) =
      symmetric_decrypt-symmetric_encrypt x.cipher s.client.crypto.session_key
        s.client.crypto.hmac_secret data_bytes (x.random s.drawn) law k r fits in
    (sealed, plain, exec_sealed x s command data_bytes sealed e w encrypted)
