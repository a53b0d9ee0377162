-- ===== src/Session/Sending.antt =====
-- What `send_msg_impl` hands to the connection, on a channel that is secured and on one that is not.
use steam_min_cpp.Prelude.{◌+◌, ◌≡◌, refl, ap, ◌∙◌, ℕ, List, [], Bool, true, false, if◌then◌else◌}
use steam_min_cpp.Prelude.Results.{ok}
use steam_min_cpp.Prelude.Results
use steam_min_cpp.Externals.{Externals}
use steam_min_cpp.Session.{
  Session, ◌>>=◌, after, finish, lift, get_client, put_client, draw, send_msg_impl,
}
use steam_min_cpp.Client
use steam_min_cpp.Tcp.{async_send}
use steam_min_cpp.Crypto.Manager.{process_outgoing_encrypted_message}

module _ (x : Externals) (buffer : List ℕ) (s : Session) where
  -- The message with a block of the generator that is set aside, or without one.
  send_block : Bool → Session × Results.Result (Unit {0})
  send_block secured =
      after
        (λ random.
          lift (Client.send_msg_impl x.cipher buffer random s.client) >>= λ sent. put_client sent)
        ((if secured then draw x else finish []) s)

  sends_block : send_msg_impl x buffer s ≡ send_block s.client.channel_secured
  unfolding send_msg_impl send_block ◌>>=◌ after get_client
  sends_block = refl

  pub send_msg_impl_plain :
      s.client.channel_secured ≡ false
      → send_msg_impl x buffer s ≡ (
        record s {
          client = record s.client { connection = async_send buffer s.client.connection };
        },
        ok tt,
      )
  unfolding send_block ◌>>=◌ after finish lift put_client Client.send_msg_impl
  send_msg_impl_plain o = sends_block ∙ ap send_block o ∙ rw o refl

  pub send_msg_impl_sealed :
      (sealed : List ℕ)
      → s.client.channel_secured ≡ true
      → process_outgoing_encrypted_message x.cipher s.client.crypto buffer (x.random s.drawn)
        ≡ ok sealed
      → send_msg_impl x buffer s ≡ (
        record s {
          client = record s.client { connection = async_send sealed s.client.connection };
          drawn = s.drawn + 1;
        },
        ok tt,
      )
  unfolding send_block ◌>>=◌ after draw lift put_client Client.send_msg_impl Results.◌>>=◌
  send_msg_impl_sealed sealed e p =
      sends_block ∙ ap send_block e ∙ rw (e, p, Results.◌>>=◌, after) refl
