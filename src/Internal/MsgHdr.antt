-- ===== src/Internal/MsgHdr.antt =====
-- `struct MsgHdr` of include/steamclient/types/generated/SteamLanguageInternal.hpp: its fields,
-- its default constructor, `Serialize` and `Deserialize`. Every integer is its bit pattern.
use steam_min_cpp.Prelude.{ℕ, ◌-◌, ◌^◌, ◌<◌, List, ◌++◌, length-append, append_assoc, ◌≡◌, arith}
use steam_min_cpp.Stream.{M, ◌>>=◌, ◌>>◌, pure, write, read}
use steam_min_cpp.Stream.Bytes.{le_bytes, length-le_bytes}
use steam_min_cpp.Stream.Laws.{
  Writes-write, Writes-then, Parses-read, Parses-bind, Parses-last, Consumes-read, Consumes-bind,
  Consumes-last,
}
use steam_min_cpp.Internal.Serializable.{IsSerializable, SerializableClass}
use steam_min_cpp.Enums.EMsg

pub record MsgHdr : Type 0 where
  pub msg : ℕ
  pub target_job_id : ℕ
  pub source_job_id : ℕ

unfoldable pub new : MsgHdr
new = record { msg = EMsg.invalid; target_job_id = 2 ^ 64 - 1; source_job_id = 2 ^ 64 - 1 }

unfoldable pub serialize : MsgHdr → M (Unit {0})
serialize m = do write 4 m.msg; write 8 m.target_job_id; write 8 m.source_job_id

unfoldable pub deserialize : M MsgHdr
deserialize = do
  msg ← read 4
  target_job_id ← read 8
  source_job_id ← read 8
  pure (record { msg = msg; target_job_id = target_job_id; source_job_id = source_job_id })

-- Each field is a value of its type.
abbrev pub IsWf : MsgHdr → Type 0
IsWf m = (m.msg < 2 ^ 32) × (m.target_job_id < 2 ^ 64) × (m.source_job_id < 2 ^ 64)

abbrev encoding : MsgHdr → List ℕ
encoding m = le_bytes 4 m.msg ++ (le_bytes 8 m.target_job_id ++ le_bytes 8 m.source_job_id)

pub MsgHdr-IsSerializable : IsSerializable MsgHdr IsWf new serialize deserialize 20
unfolding new serialize deserialize
MsgHdr-IsSerializable = record {
  new_is_wf = omega arith;
  encoding = encoding;
  writes = λ m.
      Writes-then (Writes-write 4 m.msg)
        (Writes-then (Writes-write 8 m.target_job_id) (Writes-write 8 m.source_job_id));
  parses = λ m h. Parses-bind _ (Parses-read 4 m.msg h.0) (
      Parses-bind _ (Parses-read 8 m.target_job_id h.1)
        (Parses-last _ (Parses-read 8 m.source_job_id h.2)));
  size_lem = λ m h. omega (
    arith,
    length-append (le_bytes 4 m.msg) (le_bytes 8 m.target_job_id ++ le_bytes 8 m.source_job_id),
    length-le_bytes 4 m.msg,
    length-append (le_bytes 8 m.target_job_id) (le_bytes 8 m.source_job_id),
    length-le_bytes 8 m.target_job_id,
    length-le_bytes 8 m.source_job_id,
  );
  consumes = Consumes-bind _ (Consumes-read 4 (omega arith)) (λ msg.
      Consumes-bind _ (Consumes-read 8 (omega arith))
        (λ target_job_id. Consumes-last _ (Consumes-read 8 (omega arith))));
}

abbrev pub class : SerializableClass
class = record {
  Body = MsgHdr;
  IsWf = IsWf;
  new = new;
  serialize = serialize;
  deserialize = deserialize;
  size = 20;
  laws = MsgHdr-IsSerializable;
}

-- The message number comes first.
pub encoding_front :
    (m : MsgHdr) (rest : List ℕ)
    → (behind : List ℕ) × (class.laws.encoding m ++ rest ≡ le_bytes 4 m.msg ++ behind)
unfolding MsgHdr-IsSerializable
encoding_front m rest = (
  (le_bytes 8 m.target_job_id ++ le_bytes 8 m.source_job_id) ++ rest,
  append_assoc (le_bytes 4 m.msg) (le_bytes 8 m.target_job_id ++ le_bytes 8 m.source_job_id) rest,
)
