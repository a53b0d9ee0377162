-- ===== src/Internal/MsgClientP2pIntroducerMessage.antt =====
-- `struct MsgClientP2PIntroducerMessage` of include/steamclient/types/generated/SteamLanguageInternal.hpp: its fields,
-- its default constructor, `Serialize` and `Deserialize`. Every integer is its bit pattern.
use steam_min_cpp.Prelude.{
  ℕ, ◌^◌, ◌<◌, ◌≡◌, List, ◌++◌, length, replicate, All, length-append, length-replicate,
  All-replicate, arith,
}
use steam_min_cpp.Stream.{M, ◌>>=◌, ◌>>◌, pure, write, write_bytes, read, read_array}
use steam_min_cpp.Stream.Bytes.{IsByte, le_bytes, length-le_bytes}
use steam_min_cpp.Stream.Laws.{
  Writes-write, Writes-write_bytes, Writes-then, Parses-read, Parses-bind, Parses-last,
  Consumes-read, Consumes-bind, Consumes-last,
}
use steam_min_cpp.Stream.Arrays.{Parses-read_1450, Consumes-read_array}
use steam_min_cpp.Internal.Serializable.{IsSerializable, SerializableClass}
use steam_min_cpp.Enums.EIntroducerRouting
use steam_min_cpp.Enums.EMsg

pub record MsgClientP2pIntroducerMessage : Type 0 where
  pub steam_id : ℕ
  pub routing_type : ℕ
  pub data_bytes : List ℕ
  pub data_len : ℕ

unfoldable pub new : MsgClientP2pIntroducerMessage
new = record {
  steam_id = 0;
  routing_type = EIntroducerRouting.unknown;
  data_bytes = replicate 1450 0;
  data_len = 0;
}

unfoldable pub get_emsg : MsgClientP2pIntroducerMessage → ℕ
get_emsg m = EMsg.client_p2p_introducer_message

unfoldable pub serialize : MsgClientP2pIntroducerMessage → M (Unit {0})
serialize m = do
  write 8 m.steam_id
  write 4 m.routing_type
  write_bytes m.data_bytes
  write 4 m.data_len

unfoldable pub deserialize : M MsgClientP2pIntroducerMessage
deserialize = do
  steam_id ← read 8
  routing_type ← read 4
  data_bytes ← read_array 1 1450
  data_len ← read 4
  pure (record {
    steam_id = steam_id;
    routing_type = routing_type;
    data_bytes = data_bytes;
    data_len = data_len;
  })

-- Each field is a value of its type.
abbrev pub IsWf : MsgClientP2pIntroducerMessage → Type 0
IsWf m =
    (m.steam_id < 2 ^ 64)
    × (m.routing_type < 2 ^ 32)
    × (length m.data_bytes ≡ 1450)
    × All IsByte m.data_bytes
    × (m.data_len < 2 ^ 32)

abbrev encoding : MsgClientP2pIntroducerMessage → List ℕ
encoding m =
    le_bytes 8 m.steam_id ++ (le_bytes 4 m.routing_type ++ (m.data_bytes ++ le_bytes 4 m.data_len))

pub MsgClientP2pIntroducerMessage-IsSerializable :
    IsSerializable MsgClientP2pIntroducerMessage IsWf new serialize deserialize 1466
unfolding new serialize deserialize
MsgClientP2pIntroducerMessage-IsSerializable = record {
  new_is_wf = (
    omega arith,
    omega arith,
    length-replicate {A = ℕ} 1450 0,
    All-replicate IsByte 1450 0 (omega arith),
    omega arith,
  );
  encoding = encoding;
  writes = λ m. Writes-then (Writes-write 8 m.steam_id) (
      Writes-then (Writes-write 4 m.routing_type)
        (Writes-then (Writes-write_bytes m.data_bytes) (Writes-write 4 m.data_len)));
  parses = λ m h. Parses-bind _ (Parses-read 8 m.steam_id h.0) (
      Parses-bind _ (Parses-read 4 m.routing_type h.1) (
        Parses-bind _ (Parses-read_1450 m.data_bytes h.2 h.3)
          (Parses-last _ (Parses-read 4 m.data_len h.4))));
  size_lem = λ m h. omega (
    arith,
    length-append (le_bytes 8 m.steam_id)
        (le_bytes 4 m.routing_type ++ (m.data_bytes ++ le_bytes 4 m.data_len)),
    length-le_bytes 8 m.steam_id,
    length-append (le_bytes 4 m.routing_type) (m.data_bytes ++ le_bytes 4 m.data_len),
    length-le_bytes 4 m.routing_type,
    length-append (m.data_bytes) (le_bytes 4 m.data_len),
    length-le_bytes 4 m.data_len,
  );
  consumes = Consumes-bind _ (Consumes-read 8 (omega arith)) (λ steam_id.
      Consumes-bind _ (Consumes-read 4 (omega arith)) (λ routing_type.
        Consumes-bind _ (Consumes-read_array 1450 (omega arith))
          (λ data_bytes. Consumes-last _ (Consumes-read 4 (omega arith)))));
}

abbrev pub class : SerializableClass
class = record {
  Body = MsgClientP2pIntroducerMessage;
  IsWf = IsWf;
  new = new;
  serialize = serialize;
  deserialize = deserialize;
  size = 1466;
  laws = MsgClientP2pIntroducerMessage-IsSerializable;
}
