-- ===== src/Tests/Messages.antt =====
-- Messages that are serialised, received and read.
use steam_min_cpp.Prelude.{ℕ, ◌≡◌, ◌≢◌, refl, true, List, [], ◌∷◌, length, drop, replicate, arith}
use steam_min_cpp.Prelude.Results.{ok, undefined, ◌>>=◌}
use steam_min_cpp.Stream
use steam_min_cpp.Packet.{
  PacketMsg, packet_msg, PacketClientMsgProtobuf, packet_client_msg_protobuf,
}
use steam_min_cpp.Message.{Msg, serialize, of_packet, serialize_proto, of_packet_proto}
use steam_min_cpp.Message.RoundTrip.{of_packet-serialize}
use steam_min_cpp.Message.ProtoRoundTrip.{of_packet_proto-serialize_proto}
use steam_min_cpp.Internal.MsgHdr
use steam_min_cpp.Internal.MsgChannelEncryptRequest
use steam_min_cpp.Crypto.Manager.{EncryptionManager, generate_encryption_response}
use steam_min_cpp.Crypto.Manager.Handshake.{generate_encryption_response_defined}
use steam_min_cpp.Tests.Secure.{toy_cipher, toy_key}
use steam_min_cpp.Tests.Wire.{flag_protobuf, flag_protobuf-IsProtobuf, flag_header}

abbrev request : Msg MsgChannelEncryptRequest.class
request = record {
  header = record { msg = 1303; target_job_id = 0; source_job_id = 5 };
  body = record { protocol_version = 1; universe = 1 };
  payload = replicate 16 3;
}

of_packet-serialize_example :
    (bytes : List ℕ) × (packet : PacketMsg) × (serialize MsgChannelEncryptRequest.class request
      ≡ ok bytes)
    × (length bytes ≡ 44)
    × (packet_msg 1303 bytes ≡ ok packet)
    × (of_packet MsgChannelEncryptRequest.class packet
        ≡ ok (record request { payload = drop 20 bytes }))
    × (drop 28 bytes ≡ replicate 16 3)
of_packet-serialize_example =
    of_packet-serialize MsgChannelEncryptRequest.class request 1303
      (omega arith, omega arith, omega arith) (omega arith, omega arith) (omega arith)

of_packet_proto-serialize_proto_example :
    let back = record flag_header { header_length = 2 } in
    (bytes : List ℕ) × (packet : PacketClientMsgProtobuf flag_protobuf) × (serialize_proto
        flag_protobuf flag_protobuf
        (record { header = flag_header; body = true; payload = [] })
      ≡ ok bytes)
    × (length bytes ≡ 12)
    × (packet_client_msg_protobuf flag_protobuf 5514 bytes ≡ ok packet)
    × (of_packet_proto flag_protobuf flag_protobuf packet
        ≡ record { header = back; body = true; payload = 8 ∷ 1 ∷ [] })
of_packet_proto-serialize_proto_example =
    of_packet_proto-serialize_proto flag_protobuf flag_protobuf flag_header true 5514 (8 ∷ 1 ∷ [])
      (8 ∷ 1 ∷ []) flag_protobuf-IsProtobuf flag_protobuf-IsProtobuf refl refl (omega arith)

abbrev toy_manager : EncryptionManager
toy_manager = record { session_key = toy_key; hmac_secret = replicate 16 7 }

abbrev short_packet : PacketMsg
short_packet = record {
  msg_type = 1303;
  header = record { msg = 0; target_job_id = 0; source_job_id = 0 };
  payload = replicate 22 0;
  body_offset = 20;
}

short_packet_received : packet_msg 1303 (replicate 22 0) ≡ ok short_packet
unfolding packet_msg ◌>>=◌ MsgHdr.deserialize Stream.◌>>=◌ Stream.read Stream.reader Stream.pure
short_packet_received = refl

generate_encryption_response_defined_example :
    generate_encryption_response toy_cipher toy_manager [] short_packet ≢ undefined
generate_encryption_response_defined_example =
    generate_encryption_response_defined toy_cipher toy_manager [] (replicate 22 0) 1303
      short_packet (omega arith) short_packet_received
