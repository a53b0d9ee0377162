-- ===== src/Message/RoundTrip.antt =====
-- `Msg` of include/steamclient/types/clientmsg.hpp: its bytes, and the packet that they make.
use steam_min_cpp.Prelude.{
  drop_all, ℕ, ◌+◌, ◌^◌, ◌<◌, ◌≡◌, refl, sym, ap, ◌∙◌, List, [], ◌++◌, length, take, take-append,
  drop, length-append, drop-length_append, append_assoc, arith,
}
use steam_min_cpp.Prelude.Results.{ok, ◌>>=◌}
use steam_min_cpp.Stream.{M, Stream, reader, reader_at, writer}
use steam_min_cpp.Stream.Laws.{Writes, Writes-then, Writes-write_raw, writer_with}
use steam_min_cpp.Stream.Bytes.{le_bytes, le_value, length-le_bytes, le_value-le_bytes}
use steam_min_cpp.Packet.{PacketMsg, packet_msg}
use steam_min_cpp.Internal.Serializable.{SerializableClass}
use steam_min_cpp.Internal.MsgHdr
use steam_min_cpp.Internal.MsgHdr.{MsgHdr}
use steam_min_cpp.Message.{Msg, serialize, of_packet, rest_of, serialize_steps, written_by}

-- Nothing is left where nothing is taken.
pub rest_of_lem : (offset : ℕ) (bytes : List ℕ) → rest_of offset bytes ≡ drop offset bytes
unfolding rest_of
rest_of_lem offset bytes = ground (arith, drop_all offset bytes)

-- What steps leave in a new stream.
pub written_by-ok :
    {A : Type 0} (m : M A) {a : A} {s : Stream}
    → m (writer_with [] 0) ≡ ok (a, s)
    → written_by m ≡ ok s.buffer
unfolding written_by writer
written_by-ok m e = rw (e, written_by) refl

written_by-Writes : (m : M (Unit {0})) {bytes : List ℕ} → Writes m bytes → written_by m ≡ ok bytes
written_by-Writes m w = written_by-ok m (w.run [] 0)

module _ (c : SerializableClass) (m : Msg c) where
  open c use {size, laws}

  abbrev header_bytes : List ℕ
  header_bytes = MsgHdr.class.laws.encoding m.header

  abbrev behind_header : List ℕ
  behind_header = laws.encoding m.body ++ m.payload

  abbrev pub message_bytes : List ℕ
  message_bytes = header_bytes ++ behind_header

  pub written : serialize c m ≡ ok message_bytes
  unfolding serialize serialize_steps
  written = written_by-Writes _ (
      Writes-then (MsgHdr.class.laws.writes m.header)
        (Writes-then (laws.writes m.body) (Writes-write_raw m.payload)))

  pub message_front : m.header.msg < 2 ^ 32 → le_value (take 4 message_bytes) ≡ m.header.msg
  message_front h =
      let (behind, e) = MsgHdr.encoding_front m.header behind_header in
      ap (λ (t : List ℕ). le_value (take 4 t)) e
      ∙ ap le_value
          (take-append 4 (le_bytes 4 m.header.msg) behind (length-le_bytes 4 m.header.msg))
      ∙ le_value-le_bytes 4 m.header.msg h

  -- The packet that the bytes make.
  abbrev pub packet_of : ℕ → PacketMsg
  packet_of emsg = record {
    msg_type = emsg;
    header = m.header;
    payload = message_bytes;
    body_offset = 20;
  }

  module _ (header_IsWf : MsgHdr.IsWf m.header) (body_IsWf : c.IsWf m.body)
      (fits : 20 + size + length m.payload < 2 ^ 63) where
    header_size : length header_bytes ≡ 20
    header_size = MsgHdr.class.laws.size_lem m.header header_IsWf

    pub message_size : length message_bytes ≡ 20 + size + length m.payload
    message_size = omega (
      arith,
      length-append header_bytes behind_header,
      length-append (laws.encoding m.body) m.payload,
      header_size,
      laws.size_lem m.body body_IsWf,
    )

    pub received : (emsg : ℕ) → packet_msg emsg message_bytes ≡ ok (packet_of emsg)
    unfolding packet_msg ◌>>=◌ reader
    received emsg = rw (header_read, ◌>>=◌) refl
      where
        header_read :
            MsgHdr.deserialize (reader_at message_bytes 0)
            ≡ ok (m.header, reader_at message_bytes 20)
        header_read =
            (MsgHdr.class.laws.parses m.header header_IsWf).run [] behind_header
              (omega (arith, message_size))
            ∙ ap (λ (t : ℕ). ok (m.header, reader_at message_bytes t)) (omega (arith, header_size))

    header_behind : behind_header ≡ drop 20 message_bytes
    header_behind = sym (rw header_size at (drop-length_append header_bytes behind_header))

    pub parsed :
        (emsg : ℕ) → of_packet c (packet_of emsg) ≡ ok (record m { payload = behind_header })
    unfolding of_packet
    parsed emsg =
        rw (body_read, of_packet) (ap (λ (t : List ℕ). ok (record m { payload = t })) rest)
      where
        body_read :
            c.deserialize (reader_at message_bytes 20)
            ≡ ok (m.body, reader_at message_bytes (20 + length (laws.encoding m.body)))
        body_read = rw header_size at (
            (laws.parses m.body body_IsWf).run header_bytes m.payload (omega (arith, message_size)))

        rest : rest_of 20 message_bytes ≡ behind_header
        rest = rest_of_lem 20 message_bytes ∙ sym header_behind

    payload_last : drop (20 + size) message_bytes ≡ m.payload
    payload_last =
        ap (λ (t : List ℕ). drop (20 + size) t)
          (sym (append_assoc header_bytes (laws.encoding m.body) m.payload))
        ∙ ap (λ (t : ℕ). drop t ((header_bytes ++ laws.encoding m.body) ++ m.payload)) front_size
        ∙ drop-length_append (header_bytes ++ laws.encoding m.body) m.payload
      where
        front_size : 20 + size ≡ length (header_bytes ++ laws.encoding m.body)
        front_size = omega (
          arith,
          length-append header_bytes (laws.encoding m.body),
          header_size,
          laws.size_lem m.body body_IsWf,
        )

-- A message whose header and body are in range is serialised as 20 bytes, the body's and the
-- payload's. The packet of these bytes is read as a message of the same header and body, whose
-- payload is what stands behind the header: the body's bytes again, and then the payload.
pub of_packet-serialize :
    (c : SerializableClass) (m : Msg c) (emsg : ℕ)
    → MsgHdr.IsWf m.header
    → c.IsWf m.body
    → 20 + c.size + length m.payload < 2 ^ 63
    → (bytes : List ℕ) × (packet : PacketMsg) × (serialize c m ≡ ok bytes)
      × (length bytes ≡ 20 + c.size + length m.payload)
      × (packet_msg emsg bytes ≡ ok packet)
      × (of_packet c packet ≡ ok (record m { payload = drop 20 bytes }))
      × (drop (20 + c.size) bytes ≡ m.payload)
of_packet-serialize c m emsg header_IsWf body_IsWf fits = (
  message_bytes c m,
  packet_of c m emsg,
  written c m,
  message_size c m header_IsWf body_IsWf fits,
  received c m header_IsWf body_IsWf fits emsg,
  parsed c m header_IsWf body_IsWf fits emsg
      ∙ ap (λ (t : List ℕ). ok (record m { payload = t }))
          (header_behind c m header_IsWf body_IsWf fits),
  payload_last c m header_IsWf body_IsWf fits,
)
