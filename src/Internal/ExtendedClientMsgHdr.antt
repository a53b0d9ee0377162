-- ===== src/Internal/ExtendedClientMsgHdr.antt =====
-- `struct ExtendedClientMsgHdr` of include/steamclient/types/generated/SteamLanguageInternal.hpp: its fields,
-- its default constructor, `Serialize` and `Deserialize`. Every integer is its bit pattern.
use steam_min_cpp.Prelude.{ℕ, ◌-◌, ◌^◌, ◌<◌, List, ◌++◌, length-append, arith}
use steam_min_cpp.Stream.{M, ◌>>=◌, ◌>>◌, pure, write, read}
use steam_min_cpp.Stream.Bytes.{le_bytes, length-le_bytes}
use steam_min_cpp.Stream.Laws.{
  Writes-write, Writes-then, Parses-read, Parses-bind, Parses-last, Consumes-read, Consumes-bind,
  Consumes-last,
}
use steam_min_cpp.Internal.Serializable.{IsSerializable, SerializableClass}
use steam_min_cpp.Enums.EMsg

pub record ExtendedClientMsgHdr : Type 0 where
  pub msg : ℕ
  pub header_size : ℕ
  pub header_version : ℕ
  pub target_job_id : ℕ
  pub source_job_id : ℕ
  pub header_canary : ℕ
  pub steam_id : ℕ
  pub session_id : ℕ

unfoldable pub new : ExtendedClientMsgHdr
new = record {
  msg = EMsg.invalid;
  header_size = 36;
  header_version = 2;
  target_job_id = 2 ^ 64 - 1;
  source_job_id = 2 ^ 64 - 1;
  header_canary = 239;
  steam_id = 0;
  session_id = 0;
}

unfoldable pub serialize : ExtendedClientMsgHdr → M (Unit {0})
serialize m = do
  write 4 m.msg
  write 1 m.header_size
  write 2 m.header_version
  write 8 m.target_job_id
  write 8 m.source_job_id
  write 1 m.header_canary
  write 8 m.steam_id
  write 4 m.session_id

unfoldable pub deserialize : M ExtendedClientMsgHdr
deserialize = do
  msg ← read 4
  header_size ← read 1
  header_version ← read 2
  target_job_id ← read 8
  source_job_id ← read 8
  header_canary ← read 1
  steam_id ← read 8
  session_id ← read 4
  pure (record {
    msg = msg;
    header_size = header_size;
    header_version = header_version;
    target_job_id = target_job_id;
    source_job_id = source_job_id;
    header_canary = header_canary;
    steam_id = steam_id;
    session_id = session_id;
  })

-- Each field is a value of its type.
abbrev pub IsWf : ExtendedClientMsgHdr → Type 0
IsWf m =
    (m.msg < 2 ^ 32)
    × (m.header_size < 2 ^ 8)
    × (m.header_version < 2 ^ 16)
    × (m.target_job_id < 2 ^ 64)
    × (m.source_job_id < 2 ^ 64)
    × (m.header_canary < 2 ^ 8)
    × (m.steam_id < 2 ^ 64)
    × (m.session_id < 2 ^ 32)

abbrev encoding : ExtendedClientMsgHdr → List ℕ
encoding m =
    le_bytes 4 m.msg
    ++ (le_bytes 1 m.header_size
        ++ (le_bytes 2 m.header_version
            ++ (le_bytes 8 m.target_job_id
                ++ (le_bytes 8 m.source_job_id
                    ++ (le_bytes 1 m.header_canary
                        ++ (le_bytes 8 m.steam_id ++ le_bytes 4 m.session_id))))))

pub ExtendedClientMsgHdr-IsSerializable :
    IsSerializable ExtendedClientMsgHdr IsWf new serialize deserialize 36
unfolding new serialize deserialize
ExtendedClientMsgHdr-IsSerializable = record {
  new_is_wf = omega arith;
  encoding = encoding;
  writes = λ m. Writes-then (Writes-write 4 m.msg) (
      Writes-then (Writes-write 1 m.header_size) (
        Writes-then (Writes-write 2 m.header_version) (
          Writes-then (Writes-write 8 m.target_job_id) (
            Writes-then (Writes-write 8 m.source_job_id) (
              Writes-then (Writes-write 1 m.header_canary)
                (Writes-then (Writes-write 8 m.steam_id) (Writes-write 4 m.session_id)))))));
  parses = λ m h. Parses-bind _ (Parses-read 4 m.msg h.0) (
      Parses-bind _ (Parses-read 1 m.header_size h.1) (
        Parses-bind _ (Parses-read 2 m.header_version h.2) (
          Parses-bind _ (Parses-read 8 m.target_job_id h.3) (
            Parses-bind _ (Parses-read 8 m.source_job_id h.4) (
              Parses-bind _ (Parses-read 1 m.header_canary h.5) (
                Parses-bind _ (Parses-read 8 m.steam_id h.6)
                  (Parses-last _ (Parses-read 4 m.session_id h.7))))))));
  size_lem = λ m h. omega (
    arith,
    length-append (le_bytes 4 m.msg) (
        le_bytes 1 m.header_size
        ++ (le_bytes 2 m.header_version
            ++ (le_bytes 8 m.target_job_id
                ++ (le_bytes 8 m.source_job_id
                    ++ (le_bytes 1 m.header_canary
                        ++ (le_bytes 8 m.steam_id ++ le_bytes 4 m.session_id)))))),
    length-le_bytes 4 m.msg,
    length-append (le_bytes 1 m.header_size) (
        le_bytes 2 m.header_version
        ++ (le_bytes 8 m.target_job_id
            ++ (le_bytes 8 m.source_job_id
                ++ (le_bytes 1 m.header_canary
                    ++ (le_bytes 8 m.steam_id ++ le_bytes 4 m.session_id))))),
    length-le_bytes 1 m.header_size,
    length-append (le_bytes 2 m.header_version) (
        le_bytes 8 m.target_job_id
        ++ (le_bytes 8 m.source_job_id
            ++ (le_bytes 1 m.header_canary ++ (le_bytes 8 m.steam_id ++ le_bytes 4 m.session_id)))),
    length-le_bytes 2 m.header_version,
    length-append (le_bytes 8 m.target_job_id) (
        le_bytes 8 m.source_job_id
        ++ (le_bytes 1 m.header_canary ++ (le_bytes 8 m.steam_id ++ le_bytes 4 m.session_id))),
    length-le_bytes 8 m.target_job_id,
    length-append (le_bytes 8 m.source_job_id)
        (le_bytes 1 m.header_canary ++ (le_bytes 8 m.steam_id ++ le_bytes 4 m.session_id)),
    length-le_bytes 8 m.source_job_id,
    length-append (le_bytes 1 m.header_canary) (le_bytes 8 m.steam_id ++ le_bytes 4 m.session_id),
    length-le_bytes 1 m.header_canary,
    length-append (le_bytes 8 m.steam_id) (le_bytes 4 m.session_id),
    length-le_bytes 8 m.steam_id,
    length-le_bytes 4 m.session_id,
  );
  consumes = Consumes-bind _ (Consumes-read 4 (omega arith)) (λ msg.
      Consumes-bind _ (Consumes-read 1 (omega arith)) (λ header_size.
        Consumes-bind _ (Consumes-read 2 (omega arith)) (λ header_version.
          Consumes-bind _ (Consumes-read 8 (omega arith)) (λ target_job_id.
            Consumes-bind _ (Consumes-read 8 (omega arith)) (λ source_job_id.
              Consumes-bind _ (Consumes-read 1 (omega arith)) (λ header_canary.
                Consumes-bind _ (Consumes-read 8 (omega arith))
                  (λ steam_id. Consumes-last _ (Consumes-read 4 (omega arith)))))))));
}

abbrev pub class : SerializableClass
class = record {
  Body = ExtendedClientMsgHdr;
  IsWf = IsWf;
  new = new;
  serialize = serialize;
  deserialize = deserialize;
  size = 36;
  laws = ExtendedClientMsgHdr-IsSerializable;
}
