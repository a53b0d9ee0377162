-- ===== src/Internal/MsgClientServerUnavailable.antt =====
-- `struct MsgClientServerUnavailable` of include/steamclient/types/generated/SteamLanguageInternal.hpp: its fields,
-- its default constructor, `Serialize` and `Deserialize`. Every integer is its bit pattern.
use steam_min_cpp.Prelude.{ℕ, ◌^◌, ◌<◌, List, ◌++◌, length-append, arith}
use steam_min_cpp.Stream.{M, ◌>>=◌, ◌>>◌, pure, write, read}
use steam_min_cpp.Stream.Bytes.{le_bytes, length-le_bytes}
use steam_min_cpp.Stream.Laws.{
  Writes-write, Writes-then, Parses-read, Parses-bind, Parses-last, Consumes-read, Consumes-bind,
  Consumes-last,
}
use steam_min_cpp.Internal.Serializable.{IsSerializable, SerializableClass}
use steam_min_cpp.Enums.EMsg
use steam_min_cpp.Enums.EServerType

pub record MsgClientServerUnavailable : Type 0 where
  pub job_id_sent : ℕ
  pub emsg_sent : ℕ
  pub e_server_type_unavailable : ℕ

unfoldable pub new : MsgClientServerUnavailable
new = record { job_id_sent = 0; emsg_sent = 0; e_server_type_unavailable = EServerType.first }

unfoldable pub get_emsg : MsgClientServerUnavailable → ℕ
get_emsg m = EMsg.client_server_unavailable

unfoldable pub serialize : MsgClientServerUnavailable → M (Unit {0})
serialize m = do write 8 m.job_id_sent; write 4 m.emsg_sent; write 4 m.e_server_type_unavailable

unfoldable pub deserialize : M MsgClientServerUnavailable
deserialize = do
  job_id_sent ← read 8
  emsg_sent ← read 4
  e_server_type_unavailable ← read 4
  pure (record {
    job_id_sent = job_id_sent;
    emsg_sent = emsg_sent;
    e_server_type_unavailable = e_server_type_unavailable;
  })

-- Each field is a value of its type.
abbrev pub IsWf : MsgClientServerUnavailable → Type 0
IsWf m = (m.job_id_sent < 2 ^ 64) × (m.emsg_sent < 2 ^ 32) × (m.e_server_type_unavailable < 2 ^ 32)

abbrev encoding : MsgClientServerUnavailable → List ℕ
encoding m =
    le_bytes 8 m.job_id_sent ++ (le_bytes 4 m.emsg_sent ++ le_bytes 4 m.e_server_type_unavailable)

pub MsgClientServerUnavailable-IsSerializable :
    IsSerializable MsgClientServerUnavailable IsWf new serialize deserialize 16
unfolding new serialize deserialize
MsgClientServerUnavailable-IsSerializable = record {
  new_is_wf = omega arith;
  encoding = encoding;
  writes = λ m.
      Writes-then (Writes-write 8 m.job_id_sent)
        (Writes-then (Writes-write 4 m.emsg_sent) (Writes-write 4 m.e_server_type_unavailable));
  parses = λ m h. Parses-bind _ (Parses-read 8 m.job_id_sent h.0) (
      Parses-bind _ (Parses-read 4 m.emsg_sent h.1)
        (Parses-last _ (Parses-read 4 m.e_server_type_unavailable h.2)));
  size_lem = λ m h. omega (
    arith,
    length-append (le_bytes 8 m.job_id_sent)
        (le_bytes 4 m.emsg_sent ++ le_bytes 4 m.e_server_type_unavailable),
    length-le_bytes 8 m.job_id_sent,
    length-append (le_bytes 4 m.emsg_sent) (le_bytes 4 m.e_server_type_unavailable),
    length-le_bytes 4 m.emsg_sent,
    length-le_bytes 4 m.e_server_type_unavailable,
  );
  consumes = Consumes-bind _ (Consumes-read 8 (omega arith)) (λ job_id_sent.
      Consumes-bind _ (Consumes-read 4 (omega arith))
        (λ emsg_sent. Consumes-last _ (Consumes-read 4 (omega arith))));
}

abbrev pub class : SerializableClass
class = record {
  Body = MsgClientServerUnavailable;
  IsWf = IsWf;
  new = new;
  serialize = serialize;
  deserialize = deserialize;
  size = 16;
  laws = MsgClientServerUnavailable-IsSerializable;
}
