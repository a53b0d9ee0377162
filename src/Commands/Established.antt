-- ===== src/Commands/Established.antt =====
-- A session from its handshake to its first command.
use steam_min_cpp.Prelude.{
  ℕ, ◌+◌, ◌^◌, ◌<◌, ◌≡◌, refl, ap, ◌∙◌, true, false, List, [], ◌∷◌, ◌++◌, length, arith,
}
use steam_min_cpp.Prelude.Results.{ok}
use steam_min_cpp.Events.{channel_secured_event, succeeded, Command}
use steam_min_cpp.Externals.{Externals}
use steam_min_cpp.Session.{Session, Step, ◌>>=◌, ◌>>◌, after}
use steam_min_cpp.Message.{Msg, serialize}
use steam_min_cpp.Tcp.{async_send}
use steam_min_cpp.Crypto.{IsCipher}
use steam_min_cpp.Crypto.Manager.{process_incoming_encrypted_message}
use steam_min_cpp.Internal.MsgHdr
use steam_min_cpp.Internal.MsgChannelEncryptRequest
use steam_min_cpp.Internal.MsgChannelEncryptResponse
use steam_min_cpp.Internal.MsgChannelEncryptResult
use steam_min_cpp.Enums.EMsg
use steam_min_cpp.Enums.EResult
use steam_min_cpp.Receive.{consume_frame}
use steam_min_cpp.Receive.Tables.{table}
use steam_min_cpp.Receive.Handshake.{consume_frame-encrypt_request, consume_frame-encrypt_result}
use steam_min_cpp.Commands.{exec}
use steam_min_cpp.Commands.Sent.{message_bytes, next_job, exec_secured}

-- What a server sends to open a session: a request that the client accepts.
abbrev pub Accepted : Msg MsgChannelEncryptRequest.class → Type 0
Accepted request =
    MsgHdr.IsWf request.header
    × (request.header.msg ≡ EMsg.channel_encrypt_request)
    × (request.body.protocol_version ≡ 1)
    × (request.body.universe ≡ 1)
    × (length request.payload ≡ 16)

-- And a result that is EResult::OK.
abbrev pub Succeeded : Msg MsgChannelEncryptResult.class → Type 0
Succeeded result =
    MsgHdr.IsWf result.header
    × (result.header.msg ≡ EMsg.channel_encrypt_result)
    × (result.body.result ≡ EResult.ok)
    × (24 + length result.payload < 2 ^ 63)

two_steps :
    {s s' s'' : Session} (m k : Step (Unit {0}))
    → m s ≡ (s', ok tt)
    → k s' ≡ (s'', ok tt)
    → (m >> k) s ≡ (s'', ok tt)
unfolding ◌>>◌ ◌>>=◌ after
two_steps m k e f = ap (after (λ a. k)) e ∙ f

secured_by :
    (x : Externals) (s : Session) (result : Msg MsgChannelEncryptResult.class)
    → s.client.channel_secured ≡ false
    → Succeeded result
    → (bytes : List ℕ) × (serialize MsgChannelEncryptResult.class result ≡ ok bytes)
      × (consume_frame x table 1 bytes true s ≡ (
        record s {
          client = record s.client { channel_secured = true };
          emitted = s.emitted ++ channel_secured_event succeeded ∷ [];
        },
        ok tt,
      ))
secured_by x s result o (w, n, r, fits) =
    let (bytes, written, consumed) =
      consume_frame-encrypt_result x s 0 result o w n (omega arith) fits in
    (bytes, written, rw r at consumed)

-- The handshake and a command after it, on a channel that is not secured, with a 32-byte key, a cipher
-- that obeys the laws of Crypto++'s, three random bytes for the encryption, and a command whose message
-- is serialised in fewer than 2 ^ 63 bytes. If the server's request is for protocol version 1 and the
-- public universe with 16 bytes of challenge, and its result is EResult::OK in fewer than 2 ^ 63 bytes,
-- and the two are received in this order before the command is executed, two messages are handed to
-- `async_send`: the response in plain, and the command's message in a form that the keys decrypt. One
-- `ChannelSecuredEvent` is emitted, which says that the channel is secured.
pub exec-handshake :
    (x : Externals) (s : Session) (request : Msg MsgChannelEncryptRequest.class)
    (result : Msg MsgChannelEncryptResult.class) (command : Command) (data_bytes : List ℕ)
    → IsCipher x.cipher
    → s.client.channel_secured ≡ false
    → length s.client.crypto.session_key ≡ 32
    → length (x.random (s.drawn + 1)) ≡ 3
    → Accepted request
    → Succeeded result
    → message_bytes x s.next_jobid command ≡ ok data_bytes
    → length data_bytes < 2 ^ 63
    → (first second sent sealed : List ℕ) × (response : Msg MsgChannelEncryptResponse.class)
      × (serialize MsgChannelEncryptRequest.class request ≡ ok first)
      × (serialize MsgChannelEncryptResult.class result ≡ ok second)
      × (response.header.msg ≡ EMsg.channel_encrypt_response)
      × (serialize MsgChannelEncryptResponse.class response ≡ ok sent)
      × (process_incoming_encrypted_message x.cipher s.client.crypto sealed ≡ ok data_bytes)
      × ((consume_frame x table 1 first true
              >> consume_frame x table 1 second true
              >> exec x command)
            s
          ≡ (
            record s {
              client = record s.client {
                channel_secured = true;
                connection = async_send sealed (async_send sent s.client.connection);
              };
              emitted = s.emitted ++ channel_secured_event succeeded ∷ [];
              drawn = s.drawn + 1 + 1;
              next_jobid = next_job s.next_jobid command;
            },
            ok tt,
          ))
exec-handshake x s request result command data_bytes law o k r (w, n, v, u, l) succeeds written
      fits =
    let (first, response, sent, first_written, number, payload, sent_written, answered) =
      consume_frame-encrypt_request x s 0 request o w n v u l in
    let (second, second_written, secured) =
      secured_by x
        (record s {
          client = record s.client { connection = async_send sent s.client.connection };
          drawn = s.drawn + 1;
        })
        result o succeeds in
    let (sealed, plain, executed) =
      exec_secured x
        (record s {
          client = record s.client {
            channel_secured = true;
            connection = async_send sent s.client.connection;
          };
          emitted = s.emitted ++ channel_secured_event succeeded ∷ [];
          drawn = s.drawn + 1;
        })
        command data_bytes law refl k r written fits in
    (
      first,
      second,
      sent,
      sealed,
      response,
      first_written,
      second_written,
      number,
      sent_written,
      plain,
      two_steps (consume_frame x table 1 first true >> consume_frame x table 1 second true)
          (exec x command)
          (two_steps (consume_frame x table 1 first true) (consume_frame x table 1 second true)
            answered secured)
          executed,
    )
