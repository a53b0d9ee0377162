-- ===== src/Receive/Errors.antt =====
-- Exceptions out of `consume_frame` of src/network/cmclient.cpp.
use steam_min_cpp.Prelude.{
  ℕ, zero, suc, ◌≡◌, ◌≢◌, refl, subst, arith, Bool, true, false, List, String,
}
use steam_min_cpp.Prelude.Results.{Result, ok, throws, undefined}
use steam_min_cpp.Externals.{Externals}
use steam_min_cpp.Session.{Session, Step, ◌>>=◌, after, caught, finish, lift, try_catch, get_client}
use steam_min_cpp.Client
use steam_min_cpp.Client.{CmClient, Frame, frame_data}
use steam_min_cpp.Client.Errors.{Only, consume_frame-Only}
use steam_min_cpp.Crypto.{Cipher}
use steam_min_cpp.Crypto.Manager.{process_incoming_encrypted_message}
use steam_min_cpp.Receive.{consume_frame, dispatch}
use steam_min_cpp.Receive.Tables.{Table}

-- An exception leaves the session as it was, and satisfies the predicate.
abbrev Clean : Session → (String → Type 0) → Session × Result (Unit {0}) → Type 0
Clean s P (s', ok a) = Unit {0}
Clean s P (s', throws e) = (s' ≡ s) × P e
Clean s P (s', undefined) = Unit {0}

caught-Clean :
    (s : Session) (P : String → Type 0) (r : Session × Result (Unit {0}))
    → Clean s P (caught (λ e. finish tt) r)
unfolding caught finish
caught-Clean s P (s', ok a) = tt
caught-Clean s P (s', throws e) = tt
caught-Clean s P (s', undefined) = tt

dispatched-Clean :
    (s : Session) (P : String → Type 0) (r : Result Frame) (run : Frame → Step (Unit {0}))
    → Only P r
    → Clean s P (after (λ kind. try_catch (run kind) λ e. finish tt) (s, r))
unfolding after try_catch
dispatched-Clean s P (ok kind) run h = caught-Clean s P (run kind s)
dispatched-Clean s P (throws e) run h = (refl, h)
dispatched-Clean s P undefined run h = tt

decryption :
    (c : Cipher) (client : CmClient) (frame : List ℕ) (encrypt : Bool) (e : String)
    → frame_data c client frame encrypt ≡ throws e
    → (encrypt ≡ true)
      × (client.channel_secured ≡ true)
      × (process_incoming_encrypted_message c client.crypto frame ≡ throws e)
unfolding frame_data
decryption c client frame encrypt e h = ground arith

consume_frame-Clean :
    (x : Externals) (table : Table) (depth : ℕ) (frame : List ℕ) (encrypt : Bool) (s : Session)
    → Clean s
        (λ e.
          (encrypt ≡ true)
          × (s.client.channel_secured ≡ true)
          × (process_incoming_encrypted_message x.cipher s.client.crypto frame ≡ throws e))
        (consume_frame x table depth frame encrypt s)
unfolding consume_frame ◌>>=◌ after get_client lift
consume_frame-Clean x table zero frame encrypt s = tt
consume_frame-Clean x table (suc depth) frame encrypt s =
    dispatched-Clean s _ (Client.consume_frame x.cipher s.client frame encrypt)
      (dispatch x (λ f. consume_frame x table depth f false) table)
      (consume_frame-Only _ x.cipher s.client frame encrypt
        λ e h. decryption x.cipher s.client frame encrypt e h)

explained :
    (s s' : Session) (P : String → Type 0) (r : Session × Result (Unit {0})) (e : String)
    → Clean s P r
    → r ≡ (s', throws e)
    → (s' ≡ s) × P e
explained s s' P r e c h = subst (Clean s P) h c

-- A nested frame throws nothing.
pub nested_quiet :
    (x : Externals) (table : Table) (depth : ℕ) (frame : List ℕ) (s s' : Session) (e : String)
    → consume_frame x table depth frame false s ≢ (s', throws e)
nested_quiet x table depth frame s s' e h =
    let (same, (encrypted, secured, thrown)) =
      explained s s' _ (consume_frame x table depth frame false s) e
        (consume_frame-Clean x table depth frame false s) h in
    cc encrypted

-- An exception that leaves `consume_frame` is one of the decryption, on a secured channel and of a
-- frame that is not nested in another; the session is then as it was. All others are caught, whatever
-- the handlers and the nested frames do.
pub consume_frame_throws :
    (x : Externals) (table : Table) (depth : ℕ) (frame : List ℕ) (encrypt : Bool) (s s' : Session)
    (e : String)
    → consume_frame x table depth frame encrypt s ≡ (s', throws e)
    → (s' ≡ s)
      × (encrypt ≡ true)
      × (s.client.channel_secured ≡ true)
      × (process_incoming_encrypted_message x.cipher s.client.crypto frame ≡ throws e)
consume_frame_throws x table depth frame encrypt s s' e h =
    let (same, (encrypted, secured, thrown)) =
      explained s s' _ (consume_frame x table depth frame encrypt s) e
        (consume_frame-Clean x table depth frame encrypt s) h in
    (same, encrypted, secured, thrown)
