-- ===== src/Receive/Nested.antt =====
-- Multi messages (src/routing/events/handlers/multi_handler.cpp) and answers to a logon
-- (logon_handler.cpp there), from the frame to the session that they leave.
use steam_min_cpp.Prelude.{
  ℕ, suc, ◌^◌, ◌≤◌, ◌<◌, ◌≡◌, ◌≢◌, refl, sym, ap, ◌∙◌, Bool, true, false, some, List, [], ◌∷◌, ◌++◌,
  All, length, ◌==◌, ltb, if◌then◌else◌, arith, String,
}
use steam_min_cpp.Prelude.Results.{Result, ok, throws, undefined}
use steam_min_cpp.MsgUtil.{make_msg}
use steam_min_cpp.Events.{client_logon_event, succeeded, fail}
use steam_min_cpp.Externals.{Externals}
use steam_min_cpp.Session.{Session, Step, ◌>>=◌, ◌>>◌, after, caught, finish, lift, emit}
use steam_min_cpp.Internal.Protobuf.{Protobuf, IsProtobuf}
use steam_min_cpp.Internal.MsgHdrProtoBuf.{MsgHdrProtoBuf}
use steam_min_cpp.Packet.{PacketClientMsgProtobuf}
use steam_min_cpp.Message.{MsgProto, of_packet_proto, serialize_proto}
use steam_min_cpp.Message.ProtoRoundTrip
use steam_min_cpp.Client.{frame_data}
use steam_min_cpp.Dispatch.{dispatch_proto}
use steam_min_cpp.Multi.{multi_frames}
use steam_min_cpp.Multi.Laws.{packed, IsSubFrame, multi_frames-packed}
use steam_min_cpp.Handlers.Logon.{logon_event, handle_logon_response}
use steam_min_cpp.Receive.{
  consume_frame, consume_all, unpack_multi, handle_multi, run_proto, gzip_decompress,
}
use steam_min_cpp.Receive.Tables.{table, multi, logon_response, dispatched_multi, dispatched_logon}
use steam_min_cpp.Receive.Errors.{nested_quiet}
use steam_min_cpp.Receive.Proto.{packet, packet_body, handled}
use steam_min_cpp.Enums.EMsg
use steam_min_cpp.Enums.EResult

-- Where nothing is thrown, nothing is caught.
Quiet : {A : Type 0} → Session × Result A → Type 0
Quiet (s, ok a) = Unit {0}
Quiet (s, throws e) = ⊥
Quiet (s, undefined) = Unit {0}

caught-Quiet :
    {A : Type 0} (handler : String → Step A) (r : Session × Result A)
    → Quiet r
    → caught handler r ≡ r
unfolding caught Quiet
caught-Quiet handler (s, ok a) q = refl
caught-Quiet handler (s, throws e) q = absurd q
caught-Quiet handler (s, undefined) q = refl

after-Quiet :
    {A B : Type 0} (f : A → Step B) (r : Session × Result A)
    → Quiet r
    → ((a : A) (s : Session) → Quiet (f a s))
    → Quiet (after f r)
unfolding after Quiet
after-Quiet f (s, ok a) q h = h a s
after-Quiet f (s, throws e) q h = q
after-Quiet f (s, undefined) q h = q

consume_all-Quiet :
    (consume : List ℕ → Step (Unit {0})) (fs : List (List ℕ)) (s : Session)
    → ((f : List ℕ) (t : Session) → Quiet (consume f t))
    → Quiet (consume_all consume fs s)
unfolding consume_all finish Quiet ◌>>◌ ◌>>=◌
consume_all-Quiet consume [] s h = tt
consume_all-Quiet consume (f ∷ fs) s h =
    after-Quiet (λ a. consume_all consume fs) (consume f s) (h f s)
      λ a t. consume_all-Quiet consume fs t h

quiet :
    (r : Session × Result (Unit {0})) → ((s : Session) (e : String) → r ≢ (s, throws e)) → Quiet r
unfolding Quiet
quiet (s, ok a) h = tt
quiet (s, throws e) h = h s e refl
quiet (s, undefined) h = tt

unpacked :
    (x : Externals) (consume : List ℕ → Step (Unit {0}))
    (m : MsgProto (x.header.class) (x.multi.class)) (payload : List ℕ) (s : Session)
    → (if ltb 0 (x.multi.size_unzipped m.body)
        then gzip_decompress x (x.multi.message_body m.body)
        else ok (x.multi.message_body m.body))
      ≡ ok payload
    → unpack_multi x consume m s ≡ consume_all consume (multi_frames payload) s
unfolding unpack_multi ◌>>=◌ after lift
unpacked x consume m payload s u = rw (u, after) refl

-- The handler on a packet whose payload holds frames.
handled_multi :
    (x : Externals) (consume : List ℕ → Step (Unit {0}))
    (p : PacketClientMsgProtobuf (x.header.class)) (m : MsgProto (x.header.class) (x.multi.class))
    (payload : List ℕ) (s : Session)
    → of_packet_proto (x.header.class) (x.multi.class) p ≡ m
    → (if ltb 0 (x.multi.size_unzipped m.body)
        then gzip_decompress x (x.multi.message_body m.body)
        else ok (x.multi.message_body m.body))
      ≡ ok payload
    → handle_multi x consume p s ≡ consume_all consume (multi_frames payload) s
unfolding handle_multi
handled_multi x consume p m payload s e u =
    ap (λ (t : MsgProto (x.header.class) (x.multi.class)). unpack_multi x consume t s) e
    ∙ unpacked x consume m payload s u

-- A frame, encrypted or not, that holds a Multi message whose body, decompressed if it says so, holds
-- some frames one behind the other: to consume it is to consume these frames in their order, none of
-- them decrypted again.
pub consume_frame-multi :
    (x : Externals) (s : Session) (frame : List ℕ) (encrypt : Bool) (depth : ℕ)
    (header : MsgHdrProtoBuf (x.header.class)) (body : x.multi.class.Message)
    (proto_bytes body_bytes data_bytes : List ℕ) (fs : List (List ℕ)) (tail : List ℕ)
    → IsProtobuf (x.header.class)
    → IsProtobuf (x.multi.class)
    → x.header.class.serialize_to_string header.proto ≡ some proto_bytes
    → x.multi.class.serialize_to_string body ≡ some body_bytes
    → header.msg ≡ EMsg.multi
    → serialize_proto
        (x.header.class)
        (x.multi.class)
        (record { header = header; body = body; payload = [] })
      ≡ ok data_bytes
    → 4 ≤ length frame
    → frame_data x.cipher s.client frame encrypt ≡ ok data_bytes
    → (if ltb 0 (x.multi.size_unzipped body)
        then gzip_decompress x (x.multi.message_body body)
        else ok (x.multi.message_body body))
      ≡ ok (packed fs ++ tail)
    → All IsSubFrame fs
    → length tail < 4
    → length (packed fs ++ tail) < 2 ^ 63
    → consume_frame x table (suc depth) frame encrypt s
      ≡ consume_all (λ f. consume_frame x table depth f false) fs s
unfolding run_proto
consume_frame-multi x s frame encrypt depth header body proto_bytes body_bytes data_bytes fs tail
      h_law b_law e f number sent long opened unzipped each short fits =
    handled x s frame encrypt b h_law b_law header body proto_bytes body_bytes e f small long
      (opened
        ∙ sym sent
        ∙ ProtoRoundTrip.written (x.header.class) b h_law b_law header body proto_bytes body_bytes e
            f)
      depth multi (ap (λ (n : ℕ). dispatch_proto table (make_msg n true)) number ∙ dispatched_multi)
    ∙ ap (caught λ m. finish tt) (
        handled_multi x consume
          (packet x s frame encrypt b h_law b_law header body proto_bytes body_bytes e f small) _
          (packed fs ++ tail) s
          (packet_body x s frame encrypt b h_law b_law header body proto_bytes body_bytes e f small)
          unzipped
        ∙ ap (λ (t : List (List ℕ)). consume_all consume t s)
            (multi_frames-packed fs tail each short fits))
    ∙ caught-Quiet _ (consume_all consume fs s) (
        consume_all-Quiet consume fs s
          λ g t. quiet (consume g t) (λ s' m. nested_quiet x table depth g t s' m))
  where
    b : Protobuf
    b = x.multi.class

    consume : List ℕ → Step (Unit {0})
    consume g = consume_frame x table depth g false

    small : header.msg < 2 ^ 31
    small = omega arith

-- A frame, encrypted or not, that holds the answer to a logon: one `ClientLogonEvent` is emitted. It is
-- a success exactly for EResult::OK, and has the SteamID of the body and the session number of the
-- header; nothing else changes.
pub consume_frame-logon_response :
    (x : Externals) (s : Session) (frame : List ℕ) (encrypt : Bool) (depth : ℕ)
    (header : MsgHdrProtoBuf (x.header.class)) (body : x.logon_response.class.Message)
    (proto_bytes body_bytes data_bytes : List ℕ)
    → IsProtobuf (x.header.class)
    → IsProtobuf (x.logon_response.class)
    → x.header.class.serialize_to_string header.proto ≡ some proto_bytes
    → x.logon_response.class.serialize_to_string body ≡ some body_bytes
    → header.msg ≡ EMsg.client_log_on_response
    → serialize_proto
        (x.header.class)
        (x.logon_response.class)
        (record { header = header; body = body; payload = [] })
      ≡ ok data_bytes
    → 4 ≤ length frame
    → frame_data x.cipher s.client frame encrypt ≡ ok data_bytes
    → let event =
        client_logon_event
          (if x.logon_response.eresult body == EResult.ok
            then succeeded
            else fail "Client login failed; incorrect information?")
          (some (record {
            steamid = x.logon_response.client_supplied_steamid body;
            client_sessionid = x.header.client_sessionid header.proto;
          })) in
      consume_frame x table (suc depth) frame encrypt s
      ≡ (record s { emitted = s.emitted ++ event ∷ [] }, ok tt)
unfolding run_proto handle_logon_response logon_event emit caught
consume_frame-logon_response x s frame encrypt depth header body proto_bytes body_bytes data_bytes
      h_law b_law e f number sent long opened =
    handled x s frame encrypt b h_law b_law header body proto_bytes body_bytes e f small long
      (opened
        ∙ sym sent
        ∙ ProtoRoundTrip.written (x.header.class) b h_law b_law header body proto_bytes body_bytes e
            f)
      depth logon_response
      (ap (λ (n : ℕ). dispatch_proto table (make_msg n true)) number ∙ dispatched_logon)
    ∙ ap
        (λ (m : MsgProto (x.header.class) b).
          (record s { emitted = s.emitted ++ logon_event x m ∷ [] }, ok tt))
        (packet_body x s frame encrypt b h_law b_law header body proto_bytes body_bytes e f small)
  where
    b : Protobuf
    b = x.logon_response.class

    small : header.msg < 2 ^ 31
    small = omega arith
