-- ===== src/Receive/Proto.antt =====
-- Protobuf messages, from the frame to their handler in src/routing/events/handlers.
use steam_min_cpp.Prelude.{
  ℕ, suc, ◌^◌, ◌≤◌, ◌<◌, ◌≡◌, refl, Bool, true, false, some, List, ◌++◌, length, take, arith,
  le→not_ltb,
}
use steam_min_cpp.Prelude.Results
use steam_min_cpp.Prelude.Results.{ok}
use steam_min_cpp.MsgUtil.{make_msg}
use steam_min_cpp.MsgUtil.Laws.{make_msg-true, is_protobuf_msg_lem}
use steam_min_cpp.Externals.{Externals}
use steam_min_cpp.Session.{Session, ◌>>=◌, after, caught, finish, lift, try_catch, get_client}
use steam_min_cpp.Internal.Protobuf.{Protobuf, IsProtobuf}
use steam_min_cpp.Internal.MsgHdrProtoBuf.{MsgHdrProtoBuf}
use steam_min_cpp.Packet.{PacketClientMsgProtobuf, packet_client_msg_protobuf}
use steam_min_cpp.Stream.Bytes.{le_value}
use steam_min_cpp.Message.{of_packet_proto}
use steam_min_cpp.Message.ProtoRoundTrip
use steam_min_cpp.Client
use steam_min_cpp.Client.{frame_data, read_emsg, kind_of, protobuf, is_encryption_msg}
use steam_min_cpp.Dispatch.{calls, dispatch_proto}
use steam_min_cpp.Receive.{consume_frame, dispatch, react, run_proto}
use steam_min_cpp.Receive.Tables.{table, ProtoHandler}

-- A number with the flag is none of the handshake.
kind_of-make_msg :
    (msg : ℕ) (data_bytes : List ℕ)
    → msg < 2 ^ 31
    → kind_of (make_msg msg true) data_bytes ≡ protobuf (make_msg msg true) data_bytes
unfolding kind_of is_encryption_msg
kind_of-make_msg msg data_bytes h =
    ground (arith, make_msg-true msg h, is_protobuf_msg_lem (make_msg msg true))

-- A frame that holds a message with a header and a body that can be serialised.
module _ (x : Externals) (s : Session) (frame : List ℕ) (encrypt : Bool) (b : Protobuf)
    (h_law : IsProtobuf (x.header.class)) (b_law : IsProtobuf b)
    (header : MsgHdrProtoBuf (x.header.class)) (body : b.Message) (proto_bytes body_bytes : List ℕ)
    (header_written : x.header.class.serialize_to_string header.proto ≡ some proto_bytes)
    (body_written : b.serialize_to_string body ≡ some body_bytes)
    (small : header.msg < 2 ^ 31) where
  abbrev pub bytes : List ℕ
  bytes =
      ProtoRoundTrip.front (x.header.class) b h_law b_law header body proto_bytes body_bytes
        header_written body_written
      ++ body_bytes

  abbrev pub packet : PacketClientMsgProtobuf (x.header.class)
  packet =
      ProtoRoundTrip.packet_of (x.header.class) b h_law b_law header body proto_bytes body_bytes
        header_written body_written (make_msg header.msg true)

  -- What the handler makes of the packet.
  pub packet_body : of_packet_proto (x.header.class) b packet ≡ record {
    header = record header { header_length = length proto_bytes };
    body = body;
    payload = body_bytes;
  }
  packet_body =
      ProtoRoundTrip.parsed (x.header.class) b h_law b_law header body proto_bytes body_bytes
        header_written body_written (make_msg header.msg true)

  long_bytes : 4 ≤ length bytes
  long_bytes = omega (
    arith,
    ProtoRoundTrip.message_size (x.header.class) b h_law b_law header body proto_bytes body_bytes
        header_written body_written,
  )

  received :
      packet_client_msg_protobuf (x.header.class) (make_msg header.msg true) bytes ≡ ok packet
  received =
      ProtoRoundTrip.received (x.header.class) b h_law b_law header body proto_bytes body_bytes
        header_written body_written (make_msg header.msg true) small
        (ProtoRoundTrip.message_fits (x.header.class) b h_law b_law header body proto_bytes
          body_bytes header_written body_written)

  front : le_value (take 4 bytes) ≡ make_msg header.msg true
  front =
      ProtoRoundTrip.message_front (x.header.class) b h_law b_law header body proto_bytes body_bytes
        header_written body_written small

  module _ (long : 4 ≤ length frame)
      (opened : frame_data x.cipher s.client frame encrypt ≡ ok bytes) where
    taken :
        Client.consume_frame x.cipher s.client frame encrypt
        ≡ ok (protobuf (make_msg header.msg true) bytes)
    unfolding Client.consume_frame Results.◌>>=◌ read_emsg
    taken =
        rw
          (
            le→not_ltb 4 (length frame) long,
            opened,
            Results.◌>>=◌,
            le→not_ltb 4 (length bytes) long_bytes,
            front,
            kind_of-make_msg header.msg bytes small,
          )
          refl

    -- The frame runs the handler of its number, whose exceptions are caught.
    pub handled :
        (depth : ℕ) (fn : ProtoHandler)
        → dispatch_proto table (make_msg header.msg true) ≡ ok (calls fn)
        → consume_frame x table (suc depth) frame encrypt s
          ≡ caught
              (λ e. finish tt)
              (run_proto x (λ f. consume_frame x table depth f false) fn packet s)
    unfolding consume_frame ◌>>=◌ after get_client lift try_catch dispatch react
    handled depth fn found = rw (taken, after, received, after, found, after) refl
