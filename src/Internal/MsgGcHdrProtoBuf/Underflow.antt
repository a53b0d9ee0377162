-- ===== src/Internal/MsgGcHdrProtoBuf/Underflow.antt =====
-- `Serialize` and `Deserialize` of the game coordinator header together.
use native.Mathlib.Nat.{mod-eq_of_lt}
use steam_min_cpp.Prelude.{
  ℕ, ◌^◌, ◌<◌, ◌≡◌, ◌∙◌, true, some, List, [], ◌∷◌, ◌++◌, length, append-nil, length-append, arith,
  lt→not_leb,
}
use steam_min_cpp.Prelude.Results.{ok, throws}
use steam_min_cpp.Stream.{◌>>=◌, ◌>>◌, pure, write, read, read_bytes, writer, reader, reader_at}
use steam_min_cpp.Stream.Bytes.{le_bytes, length-le_bytes}
use steam_min_cpp.Stream.Laws.{
  writer_with, bind_ok, bind_throws, Writes-write, Parses-read, Consumes-read_bytes, Gives,
  Gives-then, Gives-last,
}
use steam_min_cpp.MsgUtil.{make_msg, make_gc_msg, get_gc_msg}
use steam_min_cpp.MsgUtil.Laws.{get_msg-make_msg}
use steam_min_cpp.Internal.Protobuf.{Protobuf, IsProtobuf}
use steam_min_cpp.Internal.MsgGcHdrProtoBuf.{
  MsgGcHdrProtoBuf, serialize, deserialize, deserialize_proto,
}

module _ (p : Protobuf) (law : IsProtobuf p) (h : MsgGcHdrProtoBuf p) (b : ℕ) (bs : List ℕ)
    (written : p.serialize_to_string h.proto ≡ some (b ∷ bs)) where
  abbrev with_length : MsgGcHdrProtoBuf p
  with_length = record h { header_length = length (b ∷ bs) }

  abbrev header_bytes : List ℕ
  header_bytes = le_bytes 4 (make_gc_msg h.msg true) ++ le_bytes 4 (length (b ∷ bs))

  short : length (b ∷ bs) < 2 ^ 31
  short = law.serialized_short h.proto (b ∷ bs) written

  serialize_bytes : serialize p h (writer_with [] 0) ≡ ok (with_length, writer_with header_bytes 0)
  unfolding serialize ◌>>=◌ pure
  serialize_bytes =
      rw (written, mod-eq_of_lt {n = length (b ∷ bs)} {m = 2 ^ 32} (omega (arith, short)))
        (gives.run [] 0)
    where
      gives :
          Gives
            (write 4 (make_gc_msg h.msg true) >> (write 4 (length (b ∷ bs)) >> pure with_length))
            with_length
            header_bytes
      gives =
          Gives-then (Writes-write 4 (make_gc_msg h.msg true))
            (Gives-last with_length (Writes-write 4 (length (b ∷ bs))))

  size : length header_bytes ≡ 8
  size = omega (
    arith,
    length-append (le_bytes 4 (make_gc_msg h.msg true)) (le_bytes 4 (length (b ∷ bs))),
    length-le_bytes 4 (make_gc_msg h.msg true),
    length-le_bytes 4 (length (b ∷ bs)),
  )

  gc_word : h.msg < 2 ^ 31 → make_gc_msg h.msg true < 2 ^ 32
  unfolding make_gc_msg
  gc_word small = unfold make_msg in (get_msg-make_msg h.msg true small).0

  -- Nothing is left behind the two numbers.
  body_fails :
      (msg : ℕ)
      → deserialize_proto p msg (length (b ∷ bs)) (reader_at header_bytes 8)
        ≡ throws "Stream underflow"
  unfolding deserialize_proto
  body_fails msg =
      rw (lt→not_leb (length (b ∷ bs)) (2 ^ 31) short)
        (bind_throws (read_bytes (length (b ∷ bs))) _ (reader_at header_bytes 8) underflow)
    where
      underflow :
          read_bytes (length (b ∷ bs)) (reader_at header_bytes 8) ≡ throws "Stream underflow"
      underflow =
          (Consumes-read_bytes (length (b ∷ bs)) (omega (arith, short))).short header_bytes 8
            (omega (arith, size)) (omega (arith, size)) (omega (arith, size))

  first_read :
      h.msg < 2 ^ 31
      → read 4 (reader_at header_bytes 0) ≡ ok (make_gc_msg h.msg true, reader_at header_bytes 4)
  first_read small = rw length-le_bytes at (
      (Parses-read 4 (make_gc_msg h.msg true) (gc_word small)).run [] (le_bytes 4 (length (b ∷ bs)))
        (omega (arith, size)))

  second_read : read 4 (reader_at header_bytes 4) ≡ ok (length (b ∷ bs), reader_at header_bytes 8)
  second_read =
      rw (append-nil, length-le_bytes 4 (make_gc_msg h.msg true), length-le_bytes) at
        ((Parses-read 4 (length (b ∷ bs)) (omega (arith, short))).run
          (le_bytes 4 (make_gc_msg h.msg true)) [] (rw append-nil (omega (arith, size))))

  header_fails :
      h.msg < 2 ^ 31 → deserialize p (reader_at header_bytes 0) ≡ throws "Stream underflow"
  unfolding deserialize
  header_fails small =
      bind_ok (read 4) _ (reader_at header_bytes 0) (first_read small)
      ∙ bind_ok (read 4) _ (reader_at header_bytes 4) second_read
      ∙ body_fails (get_gc_msg (make_gc_msg h.msg true))

-- A header whose protobuf part is not empty is written as eight bytes without that part, and what
-- was written cannot be read: `deserialize` throws "Stream underflow" on it.
pub deserialize-serialize_underflow :
    (p : Protobuf) (h : MsgGcHdrProtoBuf p) (b : ℕ) (bs : List ℕ)
    → IsProtobuf p
    → p.serialize_to_string h.proto ≡ some (b ∷ bs)
    → h.msg < 2 ^ 31
    → (bytes : List ℕ) × (serialize p h writer
        ≡ ok (record h { header_length = length (b ∷ bs) }, writer_with bytes 0))
      × (length bytes ≡ 8)
      × (deserialize p (reader bytes) ≡ throws "Stream underflow")
deserialize-serialize_underflow p h b bs law written small =
    unfold writer reader in
    (
      header_bytes p law h b bs written,
      serialize_bytes p law h b bs written,
      size p law h b bs written,
      header_fails p law h b bs written small,
    )
