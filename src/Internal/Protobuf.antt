-- ===== src/Internal/Protobuf.antt =====
-- What the generated protobuf classes offer (protobuf is a third-party library): a message type with
-- its serialiser and its parser.
use steam_min_cpp.Prelude.{ℕ, ◌^◌, ◌<◌, ◌≡◌, Bool, true, Option, some, List, length, All}
use steam_min_cpp.Stream.Bytes.{IsByte}

-- `SerializeToString` fails on a message that is not complete or has 2 ^ 31 bytes or more;
-- `ParseFromArray` fills the message also where it returns false.
pub record Protobuf : Type 1 where
  pub Message : Type 0
  pub empty : Message
  pub serialize_to_string : Message → Option (List ℕ)
  pub parse_from_array : List ℕ → Message × Bool

-- The documented behaviour: bytes, fewer than 2 ^ 31, that parse to the same message.
pub record IsProtobuf (p : Protobuf) : Type 0 where
  pub serialized_bytes :
      (m : p.Message) (bytes : List ℕ) → p.serialize_to_string m ≡ some bytes → All IsByte bytes
  pub serialized_short :
      (m : p.Message) (bytes : List ℕ)
      → p.serialize_to_string m ≡ some bytes
      → length bytes < 2 ^ 31
  pub parse-serialize :
      (m : p.Message) (bytes : List ℕ)
      → p.serialize_to_string m ≡ some bytes
      → p.parse_from_array bytes ≡ (m, true)
