-- ===== src/Internal/MsgGcHdr.antt =====
-- `struct MsgGCHdr` of include/steamclient/types/generated/SteamLanguageInternal.hpp: its fields,
-- its default constructor, `Serialize` and `Deserialize`. Every integer is its bit pattern.
use steam_min_cpp.Prelude.{ℕ, ◌-◌, ◌^◌, ◌<◌, List, ◌++◌, length-append, arith}
use steam_min_cpp.Stream.{M, ◌>>=◌, ◌>>◌, pure, write, read}
use steam_min_cpp.Stream.Bytes.{le_bytes, length-le_bytes}
use steam_min_cpp.Stream.Laws.{
  Writes-write, Writes-then, Parses-read, Parses-bind, Parses-last, Consumes-read, Consumes-bind,
  Consumes-last,
}
use steam_min_cpp.Internal.Serializable.{IsSerializable, SerializableClass}

pub record MsgGcHdr : Type 0 where
  pub header_version : ℕ
  pub target_job_id : ℕ
  pub source_job_id : ℕ

unfoldable pub new : MsgGcHdr
new = record { header_version = 1; target_job_id = 2 ^ 64 - 1; source_job_id = 2 ^ 64 - 1 }

unfoldable pub serialize : MsgGcHdr → M (Unit {0})
serialize m = do write 2 m.header_version; write 8 m.target_job_id; write 8 m.source_job_id

unfoldable pub deserialize : M MsgGcHdr
deserialize = do
  header_version ← read 2
  target_job_id ← read 8
  source_job_id ← read 8
  pure (record {
    header_version = header_version;
    target_job_id = target_job_id;
    source_job_id = source_job_id;
  })

-- Each field is a value of its type.
abbrev pub IsWf : MsgGcHdr → Type 0
IsWf m = (m.header_version < 2 ^ 16) × (m.target_job_id < 2 ^ 64) × (m.source_job_id < 2 ^ 64)

abbrev encoding : MsgGcHdr → List ℕ
encoding m =
    le_bytes 2 m.header_version ++ (le_bytes 8 m.target_job_id ++ le_bytes 8 m.source_job_id)

pub MsgGcHdr-IsSerializable : IsSerializable MsgGcHdr IsWf new serialize deserialize 18
unfolding new serialize deserialize
MsgGcHdr-IsSerializable = record {
  new_is_wf = omega arith;
  encoding = encoding;
  writes = λ m.
      Writes-then (Writes-write 2 m.header_version)
        (Writes-then (Writes-write 8 m.target_job_id) (Writes-write 8 m.source_job_id));
  parses = λ m h. Parses-bind _ (Parses-read 2 m.header_version h.0) (
      Parses-bind _ (Parses-read 8 m.target_job_id h.1)
        (Parses-last _ (Parses-read 8 m.source_job_id h.2)));
  size_lem = λ m h. omega (
    arith,
    length-append (le_bytes 2 m.header_version)
        (le_bytes 8 m.target_job_id ++ le_bytes 8 m.source_job_id),
    length-le_bytes 2 m.header_version,
    length-append (le_bytes 8 m.target_job_id) (le_bytes 8 m.source_job_id),
    length-le_bytes 8 m.target_job_id,
    length-le_bytes 8 m.source_job_id,
  );
  consumes = Consumes-bind _ (Consumes-read 2 (omega arith)) (λ header_version.
      Consumes-bind _ (Consumes-read 8 (omega arith))
        (λ target_job_id. Consumes-last _ (Consumes-read 8 (omega arith))));
}

abbrev pub class : SerializableClass
class = record {
  Body = MsgGcHdr;
  IsWf = IsWf;
  new = new;
  serialize = serialize;
  deserialize = deserialize;
  size = 18;
  laws = MsgGcHdr-IsSerializable;
}
