-- ===== src/Internal/MsgGcHdrProtoBuf.antt =====
-- `struct MsgGCHdrProtoBuf` of include/steamclient/types/generated/SteamLanguageInternal.hpp: the
-- header of a game coordinator's protobuf message.
pub mod Underflow
use steam_min_cpp.Prelude.{
  ℕ, ◌%◌, ◌^◌, Bool, true, false, Option, none, some, List, length, leb, if◌then◌else◌,
}
use steam_min_cpp.Stream.{M, ◌>>=◌, ◌>>◌, pure, throw, write, read, read_bytes}
use steam_min_cpp.MsgUtil.{make_gc_msg, get_gc_msg}
use steam_min_cpp.Internal.Protobuf.{Protobuf}

module _ (p : Protobuf) where
  open p use {Message, empty, serialize_to_string, parse_from_array}

  pub record MsgGcHdrProtoBuf : Type 0 where
    pub msg : ℕ
    pub header_length : ℕ
    pub proto : Message

  unfoldable pub new : MsgGcHdrProtoBuf
  new = record { msg = 0; header_length = 0; proto = empty }

  unfoldable pub set_emsg : ℕ → MsgGcHdrProtoBuf → MsgGcHdrProtoBuf
  set_emsg msg h = record h { msg = msg }

  unfoldable pub proto_data : Option (List ℕ) → M (List ℕ)
  proto_data none = throw "Failed to serialize proto message"
  proto_data (some bytes) = pure bytes

  -- The serialised protobuf part gives the length, and is not written.
  unfoldable pub serialize : MsgGcHdrProtoBuf → M MsgGcHdrProtoBuf
  unfolding proto_data
  serialize h = do
    bytes ← proto_data (serialize_to_string h.proto)
    let header_length = length bytes % 2 ^ 32
    write 4 (make_gc_msg h.msg true)
    write 4 header_length
    pure (record h { header_length = header_length })

  unfoldable pub parse_proto : ℕ → ℕ → Message × Bool → M MsgGcHdrProtoBuf
  parse_proto msg header_length (proto, true) =
      pure (record { msg = msg; header_length = header_length; proto = proto })
  parse_proto msg header_length (proto, false) = throw "Failed to parse protobuf message"

  unfoldable pub deserialize_proto : ℕ → ℕ → M MsgGcHdrProtoBuf
  unfolding parse_proto
  deserialize_proto msg header_length =
      if leb (2 ^ 31) header_length then throw "Negative length" else (do
        buffer ← read_bytes header_length
        parse_proto msg header_length (parse_from_array buffer))

  unfoldable pub deserialize : M MsgGcHdrProtoBuf
  unfolding deserialize_proto
  deserialize = do
    raw ← read 4
    header_length ← read 4
    deserialize_proto (get_gc_msg raw) header_length
