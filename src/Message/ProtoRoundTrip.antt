-- ===== src/Message/ProtoRoundTrip.antt =====
-- `MsgProto` of include/steamclient/types/clientmsg.hpp: its bytes, and the packet that they make.
use steam_min_cpp.Prelude.{
  ℕ, ◌+◌, ◌^◌, ◌<◌, ◌≡◌, refl, ap, ◌∙◌, some, List, [], ◌++◌, true, length, take, take-append,
  append_assoc, length-append, append-nil, drop-length_append, arith,
}
use steam_min_cpp.Prelude.Results.{ok}
use steam_min_cpp.Prelude.Results
use steam_min_cpp.Stream.{M, ◌>>=◌, ◌>>◌, write_raw, reader, reader_at}
use steam_min_cpp.Stream.Laws.{Writes-then, Writes-write_raw, bind_ok, writer_with}
use steam_min_cpp.Stream.Bytes.{le_bytes, le_value, length-le_bytes, le_value-le_bytes}
use steam_min_cpp.MsgUtil.{make_msg}
use steam_min_cpp.MsgUtil.Laws.{get_msg-make_msg}
use steam_min_cpp.Packet.{PacketClientMsgProtobuf, packet_client_msg_protobuf}
use steam_min_cpp.Internal.Protobuf.{Protobuf, IsProtobuf}
use steam_min_cpp.Internal.MsgHdrProtoBuf
use steam_min_cpp.Internal.MsgHdrProtoBuf.{MsgHdrProtoBuf}
use steam_min_cpp.Internal.MsgHdrProtoBuf.RoundTrip.{
  header_bytes, with_length, serialize_bytes, Parses-deserialize, header_size,
}
use steam_min_cpp.Message.{MsgProto, serialize_proto, of_packet_proto, body_steps}
use steam_min_cpp.Message.RoundTrip.{rest_of_lem, written_by-ok}

module _ (h b : Protobuf) (h_law : IsProtobuf h) (b_law : IsProtobuf b) (header : MsgHdrProtoBuf h)
    (body : b.Message) (proto_bytes body_bytes : List ℕ)
    (header_written : h.serialize_to_string header.proto ≡ some proto_bytes)
    (body_written : b.serialize_to_string body ≡ some body_bytes) where
  abbrev pub message : MsgProto h b
  message = record { header = header; body = body; payload = [] }

  abbrev pub front : List ℕ
  front = header_bytes h h_law header proto_bytes header_written

  abbrev pub back : MsgHdrProtoBuf h
  back = with_length h h_law header proto_bytes header_written

  pub message_size : length (front ++ body_bytes) ≡ 8 + length proto_bytes + length body_bytes
  message_size =
      omega (
        arith,
        length-append front body_bytes,
        header_size h h_law header proto_bytes header_written,
      )

  pub message_fits : length (front ++ body_bytes) < 2 ^ 63
  message_fits = omega (
    arith,
    message_size,
    h_law.serialized_short header.proto proto_bytes header_written,
    b_law.serialized_short body body_bytes body_written,
  )

  -- The number with its flag comes first.
  pub message_front :
      header.msg < 2 ^ 31 → le_value (take 4 (front ++ body_bytes)) ≡ make_msg header.msg true
  message_front small =
      let number = make_msg header.msg true in
      let lengths = le_bytes 4 (length proto_bytes) ++ proto_bytes in
      ap (λ (t : List ℕ). le_value (take 4 t)) (append_assoc (le_bytes 4 number) lengths body_bytes)
      ∙ ap le_value
          (take-append 4 (le_bytes 4 number) (lengths ++ body_bytes) (length-le_bytes 4 number))
      ∙ le_value-le_bytes 4 number (get_msg-make_msg header.msg true small).0

  header_step :
      MsgHdrProtoBuf.serialize h header (writer_with [] 0) ≡ ok (back, writer_with front 0)
  header_step = serialize_bytes h h_law header proto_bytes header_written [] 0

  body_step :
      (body_steps h b (some body_bytes) >> write_raw []) (writer_with front 0)
      ≡ ok (tt, writer_with (front ++ body_bytes) 0)
  unfolding body_steps
  body_step =
      rw append-nil at
        ((Writes-then (Writes-write_raw body_bytes) (Writes-write_raw [])).run front 0)

  abbrev rest_steps : MsgHdrProtoBuf h → M (Unit {0})
  rest_steps after = body_steps h b (some body_bytes) >> write_raw []

  both_steps :
      (MsgHdrProtoBuf.serialize h header >>= rest_steps) (writer_with [] 0)
      ≡ ok (tt, writer_with (front ++ body_bytes) 0)
  both_steps =
      bind_ok (MsgHdrProtoBuf.serialize h header) rest_steps (writer_with [] 0) header_step
      ∙ body_step

  pub written : serialize_proto h b message ≡ ok (front ++ body_bytes)
  unfolding serialize_proto
  written =
      rw body_written (written_by-ok (MsgHdrProtoBuf.serialize h header >>= rest_steps) both_steps)

  abbrev pub packet_of : ℕ → PacketClientMsgProtobuf h
  packet_of emsg = record {
    msg_type = emsg;
    header = back;
    payload = front ++ body_bytes;
    body_offset = length front;
  }

  pub received :
      (emsg : ℕ)
      → header.msg < 2 ^ 31
      → length (front ++ body_bytes) < 2 ^ 63
      → packet_client_msg_protobuf h emsg (front ++ body_bytes) ≡ ok (packet_of emsg)
  unfolding packet_client_msg_protobuf Results.◌>>=◌ reader
  received emsg small fits = rw (header_read, Results.◌>>=◌) refl
    where
      header_read :
          MsgHdrProtoBuf.deserialize h (reader_at (front ++ body_bytes) 0)
          ≡ ok (back, reader_at (front ++ body_bytes) (length front))
      header_read =
          (Parses-deserialize h h_law header proto_bytes header_written small).run [] body_bytes
            fits
          ∙ ap (λ (t : ℕ). ok (back, reader_at (front ++ body_bytes) t)) (omega arith)

  pub parsed :
      (emsg : ℕ)
      → of_packet_proto h b (packet_of emsg)
        ≡ record { header = back; body = body; payload = body_bytes }
  unfolding of_packet_proto
  parsed emsg =
      rw
        (
          rest_of_lem (length front) (front ++ body_bytes),
          drop-length_append front body_bytes,
          b_law.parse-serialize body body_bytes body_written,
        )
        refl

-- A protobuf message whose header and body can be serialised, with a message number below 2 ^ 31 and
-- no payload, is serialised as eight bytes, the header's protobuf bytes and the body's. The packet of
-- these bytes is read as a message with the same header, with the length that was written, and the
-- same body, whose payload is the body's bytes.
pub of_packet_proto-serialize_proto :
    (h b : Protobuf) (header : MsgHdrProtoBuf h) (body : b.Message) (emsg : ℕ)
    (proto_bytes body_bytes : List ℕ)
    → IsProtobuf h
    → IsProtobuf b
    → h.serialize_to_string header.proto ≡ some proto_bytes
    → b.serialize_to_string body ≡ some body_bytes
    → header.msg < 2 ^ 31
    → let back = record header { header_length = length proto_bytes } in
      (bytes : List ℕ) × (packet : PacketClientMsgProtobuf h) × (serialize_proto h b
          (record { header = header; body = body; payload = [] })
        ≡ ok bytes)
      × (length bytes ≡ 8 + length proto_bytes + length body_bytes)
      × (packet_client_msg_protobuf h emsg bytes ≡ ok packet)
      × (of_packet_proto h b packet ≡ record { header = back; body = body; payload = body_bytes })
of_packet_proto-serialize_proto h b header body emsg proto_bytes body_bytes h_law b_law e f small =
    (
      front h b h_law b_law header body proto_bytes body_bytes e f ++ body_bytes,
      packet_of h b h_law b_law header body proto_bytes body_bytes e f emsg,
      written h b h_law b_law header body proto_bytes body_bytes e f,
      message_size h b h_law b_law header body proto_bytes body_bytes e f,
      received h b h_law b_law header body proto_bytes body_bytes e f emsg small
          (message_fits h b h_law b_law header body proto_bytes body_bytes e f),
      parsed h b h_law b_law header body proto_bytes body_bytes e f emsg,
    )
