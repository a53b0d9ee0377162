-- ===== src/Client/Incoming.antt =====
-- Frames of a secured channel, as the client takes them in.
use steam_min_cpp.Prelude.{
  ℕ, ◌^◌, ◌≤◌, ◌<◌, ◌≡◌, refl, true, List, length, take, arith, le→not_ltb, lt→ltb,
}
use steam_min_cpp.Prelude.Results.{ok, undefined, ◌>>=◌}
use steam_min_cpp.Stream.Bytes.{le_value}
use steam_min_cpp.Crypto.{Cipher, IsCipher}
use steam_min_cpp.Crypto.RoundTrip.{symmetric_decrypt-symmetric_encrypt}
use steam_min_cpp.Crypto.Manager.{
  process_incoming_encrypted_message, process_outgoing_encrypted_message,
}
use steam_min_cpp.Client.{CmClient, kind_of, read_emsg, frame_data, consume_frame}

module _ (c : Cipher) (client : CmClient) (frame plaintext : List ℕ) (long : 4 ≤ length frame)
    (opened : frame_data c client frame true ≡ ok plaintext) where
  accepted :
      4 ≤ length plaintext
      → consume_frame c client frame true ≡ ok (kind_of (le_value (take 4 plaintext)) plaintext)
  unfolding consume_frame ◌>>=◌ read_emsg
  accepted h =
      rw (le→not_ltb 4 (length frame) long, opened, le→not_ltb 4 (length plaintext) h, ◌>>=◌) refl

  too_short : length plaintext < 4 → consume_frame c client frame true ≡ undefined
  unfolding consume_frame ◌>>=◌ read_emsg
  too_short h =
      rw (le→not_ltb 4 (length frame) long, opened, lt→ltb (length plaintext) 4 h, ◌>>=◌) refl

opened_by :
    (c : Cipher) (client : CmClient) (frame plaintext : List ℕ)
    → client.channel_secured ≡ true
    → process_incoming_encrypted_message c client.crypto frame ≡ ok plaintext
    → frame_data c client frame true ≡ ok plaintext
unfolding frame_data
opened_by c client frame plaintext secured e = rw secured e

-- On a secured channel, with a 32-byte session key, a frame that the other end encrypted under the
-- same keys is taken for its plaintext: with four bytes or more it is told apart by their number.
-- The guard tests the encrypted frame, so from a shorter plaintext the number is read out of bounds.
pub consume_frame-process_outgoing :
    (c : Cipher) (client : CmClient) (plaintext random : List ℕ)
    → IsCipher c
    → client.channel_secured ≡ true
    → length client.crypto.session_key ≡ 32
    → length random ≡ 3
    → length plaintext < 2 ^ 63
    → (frame : List ℕ) × (process_outgoing_encrypted_message c client.crypto plaintext random
        ≡ ok frame)
      × ((4 ≤ length plaintext)
          → consume_frame c client frame true
            ≡ ok (kind_of (le_value (take 4 plaintext)) plaintext))
      × ((length plaintext < 4) → consume_frame c client frame true ≡ undefined)
unfolding process_outgoing_encrypted_message process_incoming_encrypted_message
consume_frame-process_outgoing c client plaintext random law secured k r b =
    let (frame, sealed, size, same, plain) =
      symmetric_decrypt-symmetric_encrypt c client.crypto.session_key client.crypto.hmac_secret
        plaintext random law k r b in
    let opened = opened_by c client frame plaintext secured plain in
    (
      frame,
      sealed,
      accepted c client frame plaintext (omega arith) opened,
      too_short c client frame plaintext (omega arith) opened,
    )
