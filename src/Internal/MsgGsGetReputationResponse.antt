-- ===== src/Internal/MsgGsGetReputationResponse.antt =====
-- `struct MsgGSGetReputationResponse` of include/steamclient/types/generated/SteamLanguageInternal.hpp: its fields,
-- its default constructor, `Serialize` and `Deserialize`. Every integer is its bit pattern.
use steam_min_cpp.Prelude.{ℕ, ◌^◌, ◌<◌, List, ◌++◌, length-append, arith}
use steam_min_cpp.Stream.{M, ◌>>=◌, ◌>>◌, pure, write, read}
use steam_min_cpp.Stream.Bytes.{le_bytes, length-le_bytes}
use steam_min_cpp.Stream.Laws.{
  Writes-write, Writes-then, Parses-read, Parses-bind, Parses-last, Consumes-read, Consumes-bind,
  Consumes-last,
}
use steam_min_cpp.Internal.Serializable.{IsSerializable, SerializableClass}
use steam_min_cpp.Enums.EMsg
use steam_min_cpp.Enums.EResult

pub record MsgGsGetReputationResponse : Type 0 where
  pub result : ℕ
  pub reputation_score : ℕ
  pub banned : ℕ
  pub banned_ip : ℕ
  pub banned_port : ℕ
  pub banned_game_id : ℕ
  pub time_ban_expires : ℕ

unfoldable pub new : MsgGsGetReputationResponse
new = record {
  result = EResult.invalid;
  reputation_score = 0;
  banned = 0;
  banned_ip = 0;
  banned_port = 0;
  banned_game_id = 0;
  time_ban_expires = 0;
}

unfoldable pub get_emsg : MsgGsGetReputationResponse → ℕ
get_emsg m = EMsg.gs_get_reputation_response

unfoldable pub serialize : MsgGsGetReputationResponse → M (Unit {0})
serialize m = do
  write 4 m.result
  write 4 m.reputation_score
  write 1 m.banned
  write 4 m.banned_ip
  write 2 m.banned_port
  write 8 m.banned_game_id
  write 4 m.time_ban_expires

unfoldable pub deserialize : M MsgGsGetReputationResponse
deserialize = do
  result ← read 4
  reputation_score ← read 4
  banned ← read 1
  banned_ip ← read 4
  banned_port ← read 2
  banned_game_id ← read 8
  time_ban_expires ← read 4
  pure (record {
    result = result;
    reputation_score = reputation_score;
    banned = banned;
    banned_ip = banned_ip;
    banned_port = banned_port;
    banned_game_id = banned_game_id;
    time_ban_expires = time_ban_expires;
  })

-- Each field is a value of its type.
abbrev pub IsWf : MsgGsGetReputationResponse → Type 0
IsWf m =
    (m.result < 2 ^ 32)
    × (m.reputation_score < 2 ^ 32)
    × (m.banned < 2 ^ 8)
    × (m.banned_ip < 2 ^ 32)
    × (m.banned_port < 2 ^ 16)
    × (m.banned_game_id < 2 ^ 64)
    × (m.time_ban_expires < 2 ^ 32)

abbrev encoding : MsgGsGetReputationResponse → List ℕ
encoding m =
    le_bytes 4 m.result
    ++ (le_bytes 4 m.reputation_score
        ++ (le_bytes 1 m.banned
            ++ (le_bytes 4 m.banned_ip
                ++ (le_bytes 2 m.banned_port
                    ++ (le_bytes 8 m.banned_game_id ++ le_bytes 4 m.time_ban_expires)))))

pub MsgGsGetReputationResponse-IsSerializable :
    IsSerializable MsgGsGetReputationResponse IsWf new serialize deserialize 27
unfolding new serialize deserialize
MsgGsGetReputationResponse-IsSerializable = record {
  new_is_wf = omega arith;
  encoding = encoding;
  writes = λ m. Writes-then (Writes-write 4 m.result) (
      Writes-then (Writes-write 4 m.reputation_score) (
        Writes-then (Writes-write 1 m.banned) (
          Writes-then (Writes-write 4 m.banned_ip) (
            Writes-then (Writes-write 2 m.banned_port) (
              Writes-then (Writes-write 8 m.banned_game_id)
                (Writes-write 4 m.time_ban_expires))))));
  parses = λ m h. Parses-bind _ (Parses-read 4 m.result h.0) (
      Parses-bind _ (Parses-read 4 m.reputation_score h.1) (
        Parses-bind _ (Parses-read 1 m.banned h.2) (
          Parses-bind _ (Parses-read 4 m.banned_ip h.3) (
            Parses-bind _ (Parses-read 2 m.banned_port h.4) (
              Parses-bind _ (Parses-read 8 m.banned_game_id h.5)
                (Parses-last _ (Parses-read 4 m.time_ban_expires h.6)))))));
  size_lem = λ m h. omega (
    arith,
    length-append (le_bytes 4 m.result) (
        le_bytes 4 m.reputation_score
        ++ (le_bytes 1 m.banned
            ++ (le_bytes 4 m.banned_ip
                ++ (le_bytes 2 m.banned_port
                    ++ (le_bytes 8 m.banned_game_id ++ le_bytes 4 m.time_ban_expires))))),
    length-le_bytes 4 m.result,
    length-append (le_bytes 4 m.reputation_score) (
        le_bytes 1 m.banned
        ++ (le_bytes 4 m.banned_ip
            ++ (le_bytes 2 m.banned_port
                ++ (le_bytes 8 m.banned_game_id ++ le_bytes 4 m.time_ban_expires)))),
    length-le_bytes 4 m.reputation_score,
    length-append (le_bytes 1 m.banned) (
        le_bytes 4 m.banned_ip
        ++ (le_bytes 2 m.banned_port
            ++ (le_bytes 8 m.banned_game_id ++ le_bytes 4 m.time_ban_expires))),
    length-le_bytes 1 m.banned,
    length-append (le_bytes 4 m.banned_ip) (
        le_bytes 2 m.banned_port ++ (le_bytes 8 m.banned_game_id ++ le_bytes 4 m.time_ban_expires)),
    length-le_bytes 4 m.banned_ip,
    length-append (le_bytes 2 m.banned_port)
        (le_bytes 8 m.banned_game_id ++ le_bytes 4 m.time_ban_expires),
    length-le_bytes 2 m.banned_port,
    length-append (le_bytes 8 m.banned_game_id) (le_bytes 4 m.time_ban_expires),
    length-le_bytes 8 m.banned_game_id,
    length-le_bytes 4 m.time_ban_expires,
  );
  consumes = Consumes-bind _ (Consumes-read 4 (omega arith)) (λ result.
      Consumes-bind _ (Consumes-read 4 (omega arith)) (λ reputation_score.
        Consumes-bind _ (Consumes-read 1 (omega arith)) (λ banned.
          Consumes-bind _ (Consumes-read 4 (omega arith)) (λ banned_ip.
            Consumes-bind _ (Consumes-read 2 (omega arith)) (λ banned_port.
              Consumes-bind _ (Consumes-read 8 (omega arith))
                (λ banned_game_id. Consumes-last _ (Consumes-read 4 (omega arith))))))));
}

abbrev pub class : SerializableClass
class = record {
  Body = MsgGsGetReputationResponse;
  IsWf = IsWf;
  new = new;
  serialize = serialize;
  deserialize = deserialize;
  size = 27;
  laws = MsgGsGetReputationResponse-IsSerializable;
}
