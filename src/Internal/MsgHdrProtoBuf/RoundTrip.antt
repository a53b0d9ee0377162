-- ===== src/Internal/MsgHdrProtoBuf/RoundTrip.antt =====
-- `Serialize` and `Deserialize` of the protobuf header together.
use native.Mathlib.Nat.{mod-eq_of_lt}
use steam_min_cpp.Prelude.{
  ℕ, ◌+◌, ◌^◌, ◌<◌, ◌≡◌, ap, ◌∙◌, true, some, List, [], ◌++◌, length, append-nil, length-append,
  arith, lt→not_leb,
}
use steam_min_cpp.Prelude.Results.{ok}
use steam_min_cpp.Stream.{◌>>=◌, ◌>>◌, pure, write, write_raw, writer, reader, reader_at}
use steam_min_cpp.Stream.Bytes.{le_bytes, length-le_bytes}
use steam_min_cpp.Stream.Laws.{
  Writes-write, Writes-write_raw, writer_with, Parses, Parses-read, Parses-read_bytes, Parses-bind,
  Gives, Gives-then, Gives-last,
}
use steam_min_cpp.Stream.Arrays.{Parses-pure}
use steam_min_cpp.MsgUtil.{make_msg}
use steam_min_cpp.MsgUtil.Laws.{get_msg-make_msg}
use steam_min_cpp.Internal.Protobuf.{Protobuf, IsProtobuf}
use steam_min_cpp.Internal.MsgHdrProtoBuf.{
  MsgHdrProtoBuf, serialize, deserialize, deserialize_proto, parse_proto,
}

module _ (p : Protobuf) (law : IsProtobuf p) where
  open p use {Message, serialize_to_string, parse_from_array}

  module _ (h : MsgHdrProtoBuf p) (proto_bytes : List ℕ)
      (written : serialize_to_string h.proto ≡ some proto_bytes) where
    abbrev pub header_bytes : List ℕ
    header_bytes =
        le_bytes 4 (make_msg h.msg true) ++ (le_bytes 4 (length proto_bytes) ++ proto_bytes)

    short : length proto_bytes < 2 ^ 31
    short = law.serialized_short h.proto proto_bytes written

    -- The header that is left after the writing, and read back.
    abbrev pub with_length : MsgHdrProtoBuf p
    with_length = record h { header_length = length proto_bytes }

    pub serialize_bytes :
        (buffer : List ℕ) (position : ℕ)
        → serialize p h (writer_with buffer position)
          ≡ ok (with_length, writer_with (buffer ++ header_bytes) position)
    unfolding serialize ◌>>=◌ pure
    serialize_bytes buffer position =
        rw (written, mod-eq_of_lt {n = length proto_bytes} {m = 2 ^ 32} (omega (arith, short)))
          (gives.run buffer position)
      where
        gives :
            Gives
              (write 4 (make_msg h.msg true)
                >> (write 4 (length proto_bytes) >> (write_raw proto_bytes >> pure with_length)))
              with_length
              header_bytes
        gives = Gives-then (Writes-write 4 (make_msg h.msg true)) (
            Gives-then (Writes-write 4 (length proto_bytes))
              (Gives-last with_length (Writes-write_raw proto_bytes)))

    pub header_size : length header_bytes ≡ 8 + length proto_bytes
    header_size = omega (
      arith,
      length-append (le_bytes 4 (make_msg h.msg true))
          (le_bytes 4 (length proto_bytes) ++ proto_bytes),
      length-append (le_bytes 4 (length proto_bytes)) proto_bytes,
      length-le_bytes 4 (make_msg h.msg true),
      length-le_bytes 4 (length proto_bytes),
    )

    parsed : Parses (parse_proto p h.msg (length proto_bytes) (h.proto, true)) with_length []
    unfolding parse_proto
    parsed = Parses-pure with_length

    proto_Parses :
        Parses
          (parse_proto p h.msg (length proto_bytes) (parse_from_array proto_bytes))
          with_length
          []
    proto_Parses = rw (law.parse-serialize h.proto proto_bytes written) parsed

    body_Parses : Parses (deserialize_proto p h.msg (length proto_bytes)) with_length proto_bytes
    unfolding deserialize_proto
    body_Parses = rw (lt→not_leb (length proto_bytes) (2 ^ 31) short) (
        rw append-nil at (
          Parses-bind (λ buffer. parse_proto p h.msg (length proto_bytes) (parse_from_array buffer))
            (Parses-read_bytes proto_bytes) proto_Parses))

    pub Parses-deserialize : h.msg < 2 ^ 31 → Parses (deserialize p) with_length header_bytes
    unfolding deserialize
    Parses-deserialize b =
        let (word, number, flag) = get_msg-make_msg h.msg true b in
        Parses-bind _ (Parses-read 4 (make_msg h.msg true) word) (
          Parses-bind _ (Parses-read 4 (length proto_bytes) (omega (arith, short)))
            (rw number body_Parses))

-- A header with a message number below 2 ^ 31, whose protobuf part can be serialised, is written as
-- eight bytes and that part's. In front of any other bytes they are read back as the same number and
-- protobuf message, with the length that was written, and the reader stands behind the header.
pub deserialize-serialize_header :
    (p : Protobuf) (h : MsgHdrProtoBuf p) (proto_bytes rest : List ℕ)
    → IsProtobuf p
    → p.serialize_to_string h.proto ≡ some proto_bytes
    → h.msg < 2 ^ 31
    → 8 + length proto_bytes + length rest < 2 ^ 63
    → let back = record h { header_length = length proto_bytes } in
      (bytes : List ℕ) × (serialize p h writer ≡ ok (back, writer_with bytes 0))
      × (length bytes ≡ 8 + length proto_bytes)
      × (deserialize p (reader (bytes ++ rest))
          ≡ ok (back, reader_at (bytes ++ rest) (length bytes)))
unfolding writer reader
deserialize-serialize_header p h proto_bytes rest law written b fits = (
  header_bytes p law h proto_bytes written,
  serialize_bytes p law h proto_bytes written [] 0,
  header_size p law h proto_bytes written,
  (Parses-deserialize p law h proto_bytes written b).run [] rest (
        omega (
          arith,
          header_size p law h proto_bytes written,
          length-append (header_bytes p law h proto_bytes written) rest,
        ))
      ∙ ap
          (λ (t : ℕ). ok (
            with_length p law h proto_bytes written,
            reader_at (header_bytes p law h proto_bytes written ++ rest) t,
          ))
          (omega arith),
)
