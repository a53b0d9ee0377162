-- ===== src/Session.antt =====
-- What the handlers and the commands of src/routing change: a client
-- (include/steamclient/network/cmclient.hpp) with the events that it has emitted, and the counter of
-- job numbers.
pub mod Sending
use steam_min_cpp.Prelude.{ℕ, ◌+◌, ◌%◌, ◌^◌, List, [], ◌∷◌, ◌++◌, String, Bool, if◌then◌else◌}
use steam_min_cpp.Prelude.Results.{Result, ok, throws, undefined}
use steam_min_cpp.Client
use steam_min_cpp.Client.{CmClient}
use steam_min_cpp.Events.{Event}
use steam_min_cpp.Externals.{Externals}
use steam_min_cpp.Internal.Serializable.{SerializableClass}
use steam_min_cpp.Internal.Protobuf.{Protobuf}
use steam_min_cpp.Message
use steam_min_cpp.Message.{Msg, MsgProto}

-- `emitted` is in the order of the calls of `emit`, and `drawn` counts the random generator's blocks
-- that were set aside, each for one encryption.
pub record Session : Type 0 where
  pub client : CmClient
  pub emitted : List Event
  pub drawn : ℕ
  pub next_jobid : ℕ

-- A step keeps what it changed before an exception.
abbrev pub Step : Type 0 → Type 0
Step A = Session → Session × Result A

unfoldable pub finish : {A : Type 0} → A → Step A
finish a s = (s, ok a)

unfoldable pub lift : {A : Type 0} → Result A → Step A
lift r s = (s, r)

unfoldable pub after : {A B : Type 0} → (A → Step B) → Session × Result A → Session × Result B
after f (s, ok a) = f a s
after f (s, throws e) = (s, throws e)
after f (s, undefined) = (s, undefined)

infixl 5 ◌>>=◌
unfoldable pub ◌>>=◌ : {A B : Type 0} → Step A → (A → Step B) → Step B
unfolding after
◌>>=◌ m f s = after f (m s)

infixl 5 ◌>>◌
unfoldable pub ◌>>◌ : {A B : Type 0} → Step A → Step B → Step B
unfolding ◌>>=◌
m >> k = m >>= λ a. k

-- The handler of `catch (const std::exception& e)`; undefined behaviour is not caught.
unfoldable pub caught : {A : Type 0} → (String → Step A) → Session × Result A → Session × Result A
caught handler (s, ok a) = (s, ok a)
caught handler (s, throws e) = handler e s
caught handler (s, undefined) = (s, undefined)

unfoldable pub try_catch : {A : Type 0} → Step A → (String → Step A) → Step A
unfolding caught
try_catch m handler s = caught handler (m s)

unfoldable pub emit : Event → Step (Unit {0})
emit event s = (record s { emitted = s.emitted ++ event ∷ [] }, ok tt)

unfoldable pub get_client : Step CmClient
get_client s = (s, ok s.client)

unfoldable pub put_client : CmClient → Step (Unit {0})
put_client client s = (record s { client = client }, ok tt)

unfoldable pub set_channel_secured : Bool → Step (Unit {0})
unfolding ◌>>=◌ get_client put_client
set_channel_secured val = do client ← get_client; put_client (Client.set_channel_secured val client)

-- `JobIDs::generate_jobid`.
unfoldable pub generate_jobid : Step ℕ
generate_jobid s = (record s { next_jobid = (s.next_jobid + 1) % 2 ^ 64 }, ok s.next_jobid)

module _ (x : Externals) where
  -- The next block of the generator.
  unfoldable pub draw : Step (List ℕ)
  draw s = (record s { drawn = s.drawn + 1 }, ok (x.random s.drawn))

  unfoldable pub send_msg_impl : List ℕ → Step (Unit {0})
  unfolding ◌>>=◌ get_client put_client lift draw finish
  send_msg_impl buffer = do
    client ← get_client
    random ← if client.channel_secured then draw else finish []
    sent ← lift (Client.send_msg_impl x.cipher buffer random client)
    put_client sent

  -- `send_msg`, of the two kinds of message.
  unfoldable pub send_msg : (c : SerializableClass) → Msg c → Step (Unit {0})
  unfolding ◌>>=◌ lift send_msg_impl
  send_msg c msg = do buffer ← lift (Message.serialize c msg); send_msg_impl buffer

  unfoldable pub send_proto : (b : Protobuf) → MsgProto (x.header.class) b → Step (Unit {0})
  unfolding ◌>>=◌ lift send_msg_impl
  send_proto b msg = do
    buffer ← lift (Message.serialize_proto (x.header.class) b msg)
    send_msg_impl buffer
