-- ===== src/Packet.antt =====
-- include/steamclient/types/packetbase.hpp: a received message, whose header is read and whose body
-- is left in the bytes. `GetData` is `payload` and `MsgType` is `msg_type`.
use steam_min_cpp.Prelude.{ℕ, List}
use steam_min_cpp.Prelude.Results.{Result, ok, ◌>>=◌}
use steam_min_cpp.Stream.{reader}
use steam_min_cpp.Internal.MsgHdr
use steam_min_cpp.Internal.MsgHdr.{MsgHdr}
use steam_min_cpp.Internal.ExtendedClientMsgHdr
use steam_min_cpp.Internal.ExtendedClientMsgHdr.{ExtendedClientMsgHdr}
use steam_min_cpp.Internal.Protobuf.{Protobuf}
use steam_min_cpp.Internal.MsgHdrProtoBuf
use steam_min_cpp.Internal.MsgHdrProtoBuf.{MsgHdrProtoBuf}

pub record PacketMsg : Type 0 where
  pub msg_type : ℕ
  pub header : MsgHdr
  pub payload : List ℕ
  pub body_offset : ℕ

unfoldable pub packet_msg : ℕ → List ℕ → Result PacketMsg
unfolding ◌>>=◌
packet_msg emsg data_bytes = do
  (header, s) ← MsgHdr.deserialize (reader data_bytes)
  ok (record { msg_type = emsg; header = header; payload = data_bytes; body_offset = s.position })

pub record PacketClientMsg : Type 0 where
  pub msg_type : ℕ
  pub header : ExtendedClientMsgHdr
  pub payload : List ℕ
  pub body_offset : ℕ

unfoldable pub packet_client_msg : ℕ → List ℕ → Result PacketClientMsg
unfolding ◌>>=◌
packet_client_msg emsg data_bytes = do
  (header, s) ← ExtendedClientMsgHdr.deserialize (reader data_bytes)
  ok (record { msg_type = emsg; header = header; payload = data_bytes; body_offset = s.position })

module _ (p : Protobuf) where
  pub record PacketClientMsgProtobuf : Type 0 where
    pub msg_type : ℕ
    pub header : MsgHdrProtoBuf p
    pub payload : List ℕ
    pub body_offset : ℕ

  unfoldable pub packet_client_msg_protobuf : ℕ → List ℕ → Result PacketClientMsgProtobuf
  unfolding ◌>>=◌
  packet_client_msg_protobuf emsg data_bytes = do
    (header, s) ← MsgHdrProtoBuf.deserialize p (reader data_bytes)
    ok (record { msg_type = emsg; header = header; payload = data_bytes; body_offset = s.position })
