-- ===== src/Internal/UdpHeader.antt =====
-- `struct UdpHeader` of include/steamclient/types/generated/SteamLanguageInternal.hpp: its fields,
-- its default constructor, `Serialize` and `Deserialize`. Every integer is its bit pattern.
use steam_min_cpp.Prelude.{ℕ, ◌^◌, ◌<◌, List, ◌++◌, length-append, arith}
use steam_min_cpp.Stream.{M, ◌>>=◌, ◌>>◌, pure, write, read}
use steam_min_cpp.Stream.Bytes.{le_bytes, length-le_bytes}
use steam_min_cpp.Stream.Laws.{
  Writes-write, Writes-then, Parses-read, Parses-bind, Parses-last, Consumes-read, Consumes-bind,
  Consumes-last,
}
use steam_min_cpp.Internal.Serializable.{IsSerializable, SerializableClass}
use steam_min_cpp.Enums.EUdpPacketType

abbrev pub magic : ℕ
magic = 0x31305356

pub record UdpHeader : Type 0 where
  pub magic : ℕ
  pub payload_size : ℕ
  pub packet_type : ℕ
  pub flags : ℕ
  pub source_conn_id : ℕ
  pub dest_conn_id : ℕ
  pub seq_this : ℕ
  pub seq_ack : ℕ
  pub packets_in_msg : ℕ
  pub msg_start_seq : ℕ
  pub msg_size : ℕ

unfoldable pub new : UdpHeader
new = record {
  magic = magic;
  payload_size = 0;
  packet_type = EUdpPacketType.invalid;
  flags = 0;
  source_conn_id = 512;
  dest_conn_id = 0;
  seq_this = 0;
  seq_ack = 0;
  packets_in_msg = 0;
  msg_start_seq = 0;
  msg_size = 0;
}

unfoldable pub serialize : UdpHeader → M (Unit {0})
serialize m = do
  write 4 m.magic
  write 2 m.payload_size
  write 1 m.packet_type
  write 1 m.flags
  write 4 m.source_conn_id
  write 4 m.dest_conn_id
  write 4 m.seq_this
  write 4 m.seq_ack
  write 4 m.packets_in_msg
  write 4 m.msg_start_seq
  write 4 m.msg_size

unfoldable pub deserialize : M UdpHeader
deserialize = do
  magic ← read 4
  payload_size ← read 2
  packet_type ← read 1
  flags ← read 1
  source_conn_id ← read 4
  dest_conn_id ← read 4
  seq_this ← read 4
  seq_ack ← read 4
  packets_in_msg ← read 4
  msg_start_seq ← read 4
  msg_size ← read 4
  pure (record {
    magic = magic;
    payload_size = payload_size;
    packet_type = packet_type;
    flags = flags;
    source_conn_id = source_conn_id;
    dest_conn_id = dest_conn_id;
    seq_this = seq_this;
    seq_ack = seq_ack;
    packets_in_msg = packets_in_msg;
    msg_start_seq = msg_start_seq;
    msg_size = msg_size;
  })

-- Each field is a value of its type.
abbrev pub IsWf : UdpHeader → Type 0
IsWf m =
    (m.magic < 2 ^ 32)
    × (m.payload_size < 2 ^ 16)
    × (m.packet_type < 2 ^ 8)
    × (m.flags < 2 ^ 8)
    × (m.source_conn_id < 2 ^ 32)
    × (m.dest_conn_id < 2 ^ 32)
    × (m.seq_this < 2 ^ 32)
    × (m.seq_ack < 2 ^ 32)
    × (m.packets_in_msg < 2 ^ 32)
    × (m.msg_start_seq < 2 ^ 32)
    × (m.msg_size < 2 ^ 32)

abbrev encoding : UdpHeader → List ℕ
encoding m =
    le_bytes 4 m.magic
    ++ (le_bytes 2 m.payload_size
        ++ (le_bytes 1 m.packet_type
            ++ (le_bytes 1 m.flags
                ++ (le_bytes 4 m.source_conn_id
                    ++ (le_bytes 4 m.dest_conn_id
                        ++ (le_bytes 4 m.seq_this
                            ++ (le_bytes 4 m.seq_ack
                                ++ (le_bytes 4 m.packets_in_msg
                                    ++ (le_bytes 4 m.msg_start_seq ++ le_bytes 4 m.msg_size)))))))))

pub UdpHeader-IsSerializable : IsSerializable UdpHeader IsWf new serialize deserialize 36
unfolding new serialize deserialize
UdpHeader-IsSerializable = record {
  new_is_wf = omega arith;
  encoding = encoding;
  writes = λ m. Writes-then (Writes-write 4 m.magic) (
      Writes-then (Writes-write 2 m.payload_size) (
        Writes-then (Writes-write 1 m.packet_type) (
          Writes-then (Writes-write 1 m.flags) (
            Writes-then (Writes-write 4 m.source_conn_id) (
              Writes-then (Writes-write 4 m.dest_conn_id) (
                Writes-then (Writes-write 4 m.seq_this) (
                  Writes-then (Writes-write 4 m.seq_ack) (
                    Writes-then (Writes-write 4 m.packets_in_msg) (
                      Writes-then (Writes-write 4 m.msg_start_seq)
                        (Writes-write 4 m.msg_size))))))))));
  parses = λ m h. Parses-bind _ (Parses-read 4 m.magic h.0) (
      Parses-bind _ (Parses-read 2 m.payload_size h.1) (
        Parses-bind _ (Parses-read 1 m.packet_type h.2) (
          Parses-bind _ (Parses-read 1 m.flags h.3) (
            Parses-bind _ (Parses-read 4 m.source_conn_id h.4) (
              Parses-bind _ (Parses-read 4 m.dest_conn_id h.5) (
                Parses-bind _ (Parses-read 4 m.seq_this h.6) (
                  Parses-bind _ (Parses-read 4 m.seq_ack h.7) (
                    Parses-bind _ (Parses-read 4 m.packets_in_msg h.8) (
                      Parses-bind _ (Parses-read 4 m.msg_start_seq h.9)
                        (Parses-last _ (Parses-read 4 m.msg_size h.10)))))))))));
  size_lem = λ m h. omega (
    arith,
    length-append (le_bytes 4 m.magic) (
        le_bytes 2 m.payload_size
        ++ (le_bytes 1 m.packet_type
            ++ (le_bytes 1 m.flags
                ++ (le_bytes 4 m.source_conn_id
                    ++ (le_bytes 4 m.dest_conn_id
                        ++ (le_bytes 4 m.seq_this
                            ++ (le_bytes 4 m.seq_ack
                                ++ (le_bytes 4 m.packets_in_msg
                                    ++ (le_bytes 4 m.msg_start_seq
                                        ++ le_bytes 4 m.msg_size))))))))),
    length-le_bytes 4 m.magic,
    length-append (le_bytes 2 m.payload_size) (
        le_bytes 1 m.packet_type
        ++ (le_bytes 1 m.flags
            ++ (le_bytes 4 m.source_conn_id
                ++ (le_bytes 4 m.dest_conn_id
                    ++ (le_bytes 4 m.seq_this
                        ++ (le_bytes 4 m.seq_ack
                            ++ (le_bytes 4 m.packets_in_msg
                                ++ (le_bytes 4 m.msg_start_seq ++ le_bytes 4 m.msg_size)))))))),
    length-le_bytes 2 m.payload_size,
    length-append (le_bytes 1 m.packet_type) (
        le_bytes 1 m.flags
        ++ (le_bytes 4 m.source_conn_id
            ++ (le_bytes 4 m.dest_conn_id
                ++ (le_bytes 4 m.seq_this
                    ++ (le_bytes 4 m.seq_ack
                        ++ (le_bytes 4 m.packets_in_msg
                            ++ (le_bytes 4 m.msg_start_seq ++ le_bytes 4 m.msg_size))))))),
    length-le_bytes 1 m.packet_type,
    length-append (le_bytes 1 m.flags) (
        le_bytes 4 m.source_conn_id
        ++ (le_bytes 4 m.dest_conn_id
            ++ (le_bytes 4 m.seq_this
                ++ (le_bytes 4 m.seq_ack
                    ++ (le_bytes 4 m.packets_in_msg
                        ++ (le_bytes 4 m.msg_start_seq ++ le_bytes 4 m.msg_size)))))),
    length-le_bytes 1 m.flags,
    length-append (le_bytes 4 m.source_conn_id) (
        le_bytes 4 m.dest_conn_id
        ++ (le_bytes 4 m.seq_this
            ++ (le_bytes 4 m.seq_ack
                ++ (le_bytes 4 m.packets_in_msg
                    ++ (le_bytes 4 m.msg_start_seq ++ le_bytes 4 m.msg_size))))),
    length-le_bytes 4 m.source_conn_id,
    length-append (le_bytes 4 m.dest_conn_id) (
        le_bytes 4 m.seq_this
        ++ (le_bytes 4 m.seq_ack
            ++ (le_bytes 4 m.packets_in_msg
                ++ (le_bytes 4 m.msg_start_seq ++ le_bytes 4 m.msg_size)))),
    length-le_bytes 4 m.dest_conn_id,
    length-append (le_bytes 4 m.seq_this) (
        le_bytes 4 m.seq_ack
        ++ (le_bytes 4 m.packets_in_msg ++ (le_bytes 4 m.msg_start_seq ++ le_bytes 4 m.msg_size))),
    length-le_bytes 4 m.seq_this,
    length-append (le_bytes 4 m.seq_ack)
        (le_bytes 4 m.packets_in_msg ++ (le_bytes 4 m.msg_start_seq ++ le_bytes 4 m.msg_size)),
    length-le_bytes 4 m.seq_ack,
    length-append (le_bytes 4 m.packets_in_msg)
        (le_bytes 4 m.msg_start_seq ++ le_bytes 4 m.msg_size),
    length-le_bytes 4 m.packets_in_msg,
    length-append (le_bytes 4 m.msg_start_seq) (le_bytes 4 m.msg_size),
    length-le_bytes 4 m.msg_start_seq,
    length-le_bytes 4 m.msg_size,
  );
  consumes = Consumes-bind _ (Consumes-read 4 (omega arith)) (λ magic.
      Consumes-bind _ (Consumes-read 2 (omega arith)) (λ payload_size.
        Consumes-bind _ (Consumes-read 1 (omega arith)) (λ packet_type.
          Consumes-bind _ (Consumes-read 1 (omega arith)) (λ flags.
            Consumes-bind _ (Consumes-read 4 (omega arith)) (λ source_conn_id.
              Consumes-bind _ (Consumes-read 4 (omega arith)) (λ dest_conn_id.
                Consumes-bind _ (Consumes-read 4 (omega arith)) (λ seq_this.
                  Consumes-bind _ (Consumes-read 4 (omega arith)) (λ seq_ack.
                    Consumes-bind _ (Consumes-read 4 (omega arith)) (λ packets_in_msg.
                      Consumes-bind _ (Consumes-read 4 (omega arith))
                        (λ msg_start_seq. Consumes-last _ (Consumes-read 4 (omega arith))))))))))));
}

abbrev pub class : SerializableClass
class = record {
  Body = UdpHeader;
  IsWf = IsWf;
  new = new;
  serialize = serialize;
  deserialize = deserialize;
  size = 36;
  laws = UdpHeader-IsSerializable;
}
