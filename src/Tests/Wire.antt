-- ===== src/Tests/Wire.antt =====
-- Runs of the stream, the messages and the headers; test/test_stream.cpp has the first three.
use mathlib.Core.Option.{some-injective}
use steam_min_cpp.Prelude.{
  ℕ, ◌+◌, ◌/◌, ◌%◌, ◌^◌, ◌≤◌, ◌<◌, ◌≡◌, refl, ◌⊎◌, Bool, true, false, some, List, [], ◌∷◌, ◌++◌,
  length, arith, ◌==◌, All,
}
use steam_min_cpp.Prelude.Results.{ok, throws}
use steam_min_cpp.Stream.{write, read, read_bytes, reader, reader_at, writer}
use steam_min_cpp.Stream.Bytes.{IsByte}
use steam_min_cpp.Stream.Laws.{writer_with}
use steam_min_cpp.MsgUtil.{make_msg, get_msg, is_protobuf_msg}
use steam_min_cpp.MsgUtil.Laws.{make_msg-get_msg}
use steam_min_cpp.Internal.MsgGsDeny
use steam_min_cpp.Internal.MsgGsDeny.{MsgGsDeny}
use steam_min_cpp.Internal.Registry.{msg_gs_deny}
use steam_min_cpp.Internal.Registry.RoundTrip.{
  deserialize-serialize as class-round_trip, deserialize_takes_size,
}
use steam_min_cpp.Internal.Protobuf.{Protobuf, IsProtobuf}
use steam_min_cpp.Internal.MsgHdrProtoBuf.{MsgHdrProtoBuf}
use steam_min_cpp.Internal.MsgGcHdrProtoBuf
use steam_min_cpp.Internal.MsgGcHdrProtoBuf.{MsgGcHdrProtoBuf}
use steam_min_cpp.Internal.MsgGcHdrProtoBuf.Underflow.{deserialize-serialize_underflow}
use steam_min_cpp.Internal.SteamId.{of_parts, convert_to_uint64}
use steam_min_cpp.Internal.SteamId.Fields.{of_parts_fields, of_parts_spills}

abbrev expected : List ℕ
expected = 0x54 ∷ 0x45 ∷ 0x53 ∷ 0x54 ∷ []

stream_writing : write 4 0x54534554 writer ≡ ok (tt, writer_with expected 0)
unfolding write writer
stream_writing = refl

stream_reading : read_bytes 4 (reader expected) ≡ ok (expected, reader_at expected 4)
unfolding read_bytes reader
stream_reading = refl

stream_underflow : read 4 (reader (1 ∷ [])) ≡ throws "Stream underflow"
unfolding read reader
stream_underflow = refl

read_little_endian : read 4 (reader expected) ≡ ok (0x54534554, reader_at expected 4)
unfolding read reader
read_little_endian = refl

abbrev deny : MsgGsDeny
deny = record { steam_id = 0x1100001_0000002a; deny_reason = 5 }

deserialize-serialize_example :
    (bytes : List ℕ) × (MsgGsDeny.serialize deny writer ≡ ok (tt, writer_with bytes 0))
    × (length bytes ≡ 12)
    × (MsgGsDeny.deserialize (reader (bytes ++ (7 ∷ [])))
        ≡ ok (deny, reader_at (bytes ++ (7 ∷ [])) 12))
deserialize-serialize_example =
    class-round_trip msg_gs_deny deny (7 ∷ []) (omega arith) (omega arith)

deserialize_takes_size_example :
    ((0 + 12 ≤ 4)
      × ((m : MsgGsDeny) × (MsgGsDeny.deserialize (reader_at expected 0)
            ≡ ok (m, reader_at expected (0 + 12)))))
    ⊎ ((4 < 0 + 12) × (MsgGsDeny.deserialize (reader_at expected 0) ≡ throws "Stream underflow"))
deserialize_takes_size_example =
    deserialize_takes_size msg_gs_deny expected 0 (omega arith) (omega arith)

make_msg-get_msg_example : make_msg (get_msg 0x800022c8) (is_protobuf_msg 0x800022c8) ≡ 0x800022c8
make_msg-get_msg_example = make_msg-get_msg 0x800022c8 (omega arith)

of_parts_fields_example :
    let value = convert_to_uint64 (of_parts 42 1 1 10) in
    (value < 2 ^ 64)
    × (value % 2 ^ 32 ≡ 42)
    × (value / 2 ^ 32 % 2 ^ 20 ≡ 1)
    × (value / 2 ^ 52 % 2 ^ 4 ≡ 10)
    × (value / 2 ^ 56 % 2 ^ 8 ≡ 1)
of_parts_fields_example =
    of_parts_fields 42 1 1 10 (omega arith) (omega arith) (omega arith) (omega arith)

of_parts_spills_example : convert_to_uint64 (of_parts 42 0x300000 1 0) / 2 ^ 52 % 2 ^ 4 ≡ 3
of_parts_spills_example =
    of_parts_spills 42 0x300000 1 (omega arith) (omega arith) (omega arith) (omega arith)

-- A protobuf class with one optional flag, field number 1.
abbrev flag_bytes : Bool → List ℕ
flag_bytes true = 8 ∷ 1 ∷ []
flag_bytes false = []

abbrev parse_flag : List ℕ → Bool × Bool
parse_flag [] = (false, true)
parse_flag (tag ∷ rest) = (true, tag == 8)

abbrev pub flag_protobuf : Protobuf
flag_protobuf = record {
  Message = Bool;
  empty = false;
  serialize_to_string = λ m. some (flag_bytes m);
  parse_from_array = parse_flag;
}

pub flag_protobuf-IsProtobuf : IsProtobuf flag_protobuf
flag_protobuf-IsProtobuf = record {
  serialized_bytes = λ m bytes e. rw (← some-injective _ _ e) (flag_bytes-IsByte m);
  serialized_short = λ m bytes e. rw (← some-injective _ _ e) (flag_bytes_short m);
  parse-serialize = λ m bytes e. rw (← some-injective _ _ e) (parse-flag_bytes m);
}
  where
    flag_bytes-IsByte : (m : Bool) → All IsByte (flag_bytes m)
    flag_bytes-IsByte true = (omega arith, (omega arith, tt))
    flag_bytes-IsByte false = tt

    flag_bytes_short : (m : Bool) → length (flag_bytes m) < 2 ^ 31
    flag_bytes_short true = omega arith
    flag_bytes_short false = omega arith

    parse-flag_bytes : (m : Bool) → parse_flag (flag_bytes m) ≡ (m, true)
    parse-flag_bytes true = refl
    parse-flag_bytes false = refl

abbrev pub flag_header : MsgHdrProtoBuf flag_protobuf
flag_header = record { msg = 5514; header_length = 0; proto = true }

abbrev flag_gc_header : MsgGcHdrProtoBuf flag_protobuf
flag_gc_header = record { msg = 4004; header_length = 0; proto = true }

deserialize-serialize_underflow_example :
    (bytes : List ℕ) × (MsgGcHdrProtoBuf.serialize flag_protobuf flag_gc_header writer
      ≡ ok (record flag_gc_header { header_length = 2 }, writer_with bytes 0))
    × (length bytes ≡ 8)
    × (MsgGcHdrProtoBuf.deserialize flag_protobuf (reader bytes) ≡ throws "Stream underflow")
deserialize-serialize_underflow_example =
    deserialize-serialize_underflow flag_protobuf flag_gc_header 8 (1 ∷ []) flag_protobuf-IsProtobuf
      refl (omega arith)
