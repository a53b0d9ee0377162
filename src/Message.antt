-- ===== src/Message.antt =====
-- include/steamclient/types/clientmsg.hpp: `Msg<TBody>`, a message with a fixed header and a body of
-- a generated class, and `MsgProto<TBody>`, its counterpart with protobuf parts.
pub mod Payload
pub mod RoundTrip
pub mod ProtoRoundTrip
use steam_min_cpp.Prelude.{
  ℕ, ◌≡◌, Bool, Option, none, some, List, [], ◌++◌, length, drop, ltb, if◌then◌else◌,
}
use steam_min_cpp.Prelude.Results.{Result, ok, throws, undefined}
use steam_min_cpp.Prelude.Results
use steam_min_cpp.Stream.{Stream, M, ◌>>=◌, ◌>>◌, pure, throw, write_raw, writer, reader_at}
use steam_min_cpp.Packet.{PacketMsg, PacketClientMsgProtobuf}
use steam_min_cpp.Internal.Serializable.{SerializableClass}
use steam_min_cpp.Internal.MsgHdr
use steam_min_cpp.Internal.MsgHdr.{MsgHdr}
use steam_min_cpp.Internal.Protobuf.{Protobuf}
use steam_min_cpp.Internal.MsgHdrProtoBuf
use steam_min_cpp.Internal.MsgHdrProtoBuf.{MsgHdrProtoBuf, proto_data}

-- `MoveBuffer` after steps on a new stream.
unfoldable pub written_by : {A : Type 0} → M A → Result (List ℕ)
written_by m = elim (m writer) [
  | ok (a, s) ↦ ok s.buffer
  | throws e ↦ throws e
  | undefined ↦ undefined
]

-- `data` from `offset` on, where the payload is taken only if there is something.
unfoldable pub rest_of : ℕ → List ℕ → List ℕ
rest_of offset data_bytes = if ltb offset (length data_bytes) then drop offset data_bytes else []

module _ (c : SerializableClass) where
  pub record Msg : Type 0 where
    pub header : MsgHdr
    pub body : c.Body
    pub payload : List ℕ

  -- `Msg(payloadReserve)`; `emsg` is `Body.GetEMsg()`.
  unfoldable pub new : ℕ → Msg
  new emsg = record { header = record MsgHdr.new { msg = emsg }; body = c.new; payload = [] }

  -- `Msg(other)`: the answer to another message.
  unfoldable pub reply_to : ℕ → Msg → Msg
  unfolding new
  reply_to emsg other = record (new emsg) {
    header = record (new emsg).header { target_job_id = other.header.source_job_id };
  }

  -- `Msg(packet)`: `offset` does not move, so the payload begins with the body's bytes.
  unfoldable pub of_packet : PacketMsg → Result Msg
  of_packet packet = elim (c.deserialize (reader_at packet.payload packet.body_offset)) [
    | ok (body, s) ↦ ok (record {
      header = packet.header;
      body = body;
      payload = rest_of packet.body_offset packet.payload;
    })
    | throws e ↦ throws e
    | undefined ↦ undefined
  ]

  unfoldable pub serialize_steps : Msg → M (Unit {0})
  serialize_steps m = do MsgHdr.serialize m.header; c.serialize m.body; write_raw m.payload

  unfoldable pub serialize : Msg → Result (List ℕ)
  unfolding serialize_steps written_by
  serialize m = written_by (serialize_steps m)

module _ (h b : Protobuf) where
  pub record MsgProto : Type 0 where
    pub header : MsgHdrProtoBuf h
    pub body : b.Message
    pub payload : List ℕ

  -- `MsgProto(eMsg)`.
  unfoldable pub new_proto : ℕ → MsgProto
  new_proto emsg = record {
    header = MsgHdrProtoBuf.set_emsg h emsg (MsgHdrProtoBuf.new h);
    body = b.empty;
    payload = [];
  }

  -- `MsgProto(packet)`: the result of `ParseFromArray` is not looked at. A reader never leaves
  -- `bodyOffset` behind the data's end, so `data.size() - offset` does not wrap.
  unfoldable pub of_packet_proto : PacketClientMsgProtobuf h → MsgProto
  of_packet_proto packet = record {
    header = packet.header;
    body = (b.parse_from_array (drop packet.body_offset packet.payload)).0;
    payload = rest_of packet.body_offset packet.payload;
  }

  -- The body's part of `Serialize`.
  body_steps : Option (List ℕ) → M (Unit {0})
  body_steps none = throw "Failed to serialize protobuf body"
  body_steps (some data_bytes) = write_raw data_bytes

  unfoldable pub serialize_proto : MsgProto → Result (List ℕ)
  unfolding body_steps written_by
  serialize_proto m = written_by (
      MsgHdrProtoBuf.serialize h m.header >>= λ header.
      body_steps (b.serialize_to_string m.body) >> write_raw m.payload)
