-- ===== src/Internal/MsgHdrProtoBuf.antt =====
-- `struct MsgHdrProtoBuf` of include/steamclient/types/generated/SteamLanguageInternal.hpp: the
-- header of a protobuf message. `CMsgProtoBufHeader` is a generated protobuf class.
pub mod RoundTrip
use steam_min_cpp.Prelude.{
  ℕ, ◌%◌, ◌^◌, ◌≤◌, Bool, true, false, Option, none, some, List, length, leb, if◌then◌else◌, String,
}
use steam_min_cpp.Stream.{M, Stream, ◌>>=◌, ◌>>◌, pure, throw, write, write_raw, read, read_bytes}
use steam_min_cpp.MsgUtil.{make_msg, get_msg}
use steam_min_cpp.Internal.Protobuf.{Protobuf}
use steam_min_cpp.Enums.EMsg

module _ (p : Protobuf) where
  open p use {Message, empty, serialize_to_string, parse_from_array}

  -- `headerLength` is an int32_t, as its bit pattern.
  pub record MsgHdrProtoBuf : Type 0 where
    pub msg : ℕ
    pub header_length : ℕ
    pub proto : Message

  unfoldable pub new : MsgHdrProtoBuf
  new = record { msg = EMsg.invalid; header_length = 0; proto = empty }

  unfoldable pub set_emsg : ℕ → MsgHdrProtoBuf → MsgHdrProtoBuf
  set_emsg msg h = record h { msg = msg }

  -- The bytes of `SerializeToString`, or the exception.
  unfoldable pub proto_data : Option (List ℕ) → M (List ℕ)
  proto_data none = throw "Failed to serialize proto message"
  proto_data (some bytes) = pure bytes

  -- `Serialize` sets the mutable `headerLength`, so it returns the header that it leaves.
  unfoldable pub serialize : MsgHdrProtoBuf → M MsgHdrProtoBuf
  unfolding proto_data
  serialize h = do
    bytes ← proto_data (serialize_to_string h.proto)
    let header_length = length bytes % 2 ^ 32
    write 4 (make_msg h.msg true)
    write 4 header_length
    write_raw bytes
    pure (record h { header_length = header_length })

  -- `proto.ParseFromArray` and its test.
  unfoldable pub parse_proto : ℕ → ℕ → Message × Bool → M MsgHdrProtoBuf
  parse_proto msg header_length (proto, true) =
      pure (record { msg = msg; header_length = header_length; proto = proto })
  parse_proto msg header_length (proto, false) = throw "Failed to parse protobuf message"

  -- What follows the two numbers. A pattern from 2 ^ 31 on is a negative length.
  unfoldable pub deserialize_proto : ℕ → ℕ → M MsgHdrProtoBuf
  unfolding parse_proto
  deserialize_proto msg header_length =
      if leb (2 ^ 31) header_length then throw "Negative length" else (do
        buffer ← read_bytes header_length
        parse_proto msg header_length (parse_from_array buffer))

  unfoldable pub deserialize : M MsgHdrProtoBuf
  unfolding deserialize_proto
  deserialize = do
    raw ← read 4
    header_length ← read 4
    deserialize_proto (get_msg raw) header_length
