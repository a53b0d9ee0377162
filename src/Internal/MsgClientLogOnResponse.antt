-- ===== src/Internal/MsgClientLogOnResponse.antt =====
-- `struct MsgClientLogOnResponse` of include/steamclient/types/generated/SteamLanguageInternal.hpp: its fields,
-- its default constructor, `Serialize` and `Deserialize`. Every integer is its bit pattern.
use steam_min_cpp.Prelude.{ℕ, ◌^◌, ◌<◌, List, ◌++◌, length-append, arith}
use steam_min_cpp.Stream.{M, ◌>>=◌, ◌>>◌, pure, write, read}
use steam_min_cpp.Stream.Bytes.{le_bytes, length-le_bytes}
use steam_min_cpp.Stream.Laws.{
  Writes-write, Writes-then, Parses-read, Parses-bind, Parses-last, Consumes-read, Consumes-bind,
  Consumes-last,
}
use steam_min_cpp.Internal.Serializable.{IsSerializable, SerializableClass}
use steam_min_cpp.Enums.EMsg
use steam_min_cpp.Enums.EResult

pub record MsgClientLogOnResponse : Type 0 where
  pub result : ℕ
  pub out_of_game_heartbeat_rate_sec : ℕ
  pub in_game_heartbeat_rate_sec : ℕ
  pub client_supplied_steam_id : ℕ
  pub ip_public : ℕ
  pub server_real_time : ℕ

unfoldable pub new : MsgClientLogOnResponse
new = record {
  result = EResult.invalid;
  out_of_game_heartbeat_rate_sec = 0;
  in_game_heartbeat_rate_sec = 0;
  client_supplied_steam_id = 0;
  ip_public = 0;
  server_real_time = 0;
}

unfoldable pub get_emsg : MsgClientLogOnResponse → ℕ
get_emsg m = EMsg.client_log_on_response

unfoldable pub serialize : MsgClientLogOnResponse → M (Unit {0})
serialize m = do
  write 4 m.result
  write 4 m.out_of_game_heartbeat_rate_sec
  write 4 m.in_game_heartbeat_rate_sec
  write 8 m.client_supplied_steam_id
  write 4 m.ip_public
  write 4 m.server_real_time

unfoldable pub deserialize : M MsgClientLogOnResponse
deserialize = do
  result ← read 4
  out_of_game_heartbeat_rate_sec ← read 4
  in_game_heartbeat_rate_sec ← read 4
  client_supplied_steam_id ← read 8
  ip_public ← read 4
  server_real_time ← read 4
  pure (record {
    result = result;
    out_of_game_heartbeat_rate_sec = out_of_game_heartbeat_rate_sec;
    in_game_heartbeat_rate_sec = in_game_heartbeat_rate_sec;
    client_supplied_steam_id = client_supplied_steam_id;
    ip_public = ip_public;
    server_real_time = server_real_time;
  })

-- Each field is a value of its type.
abbrev pub IsWf : MsgClientLogOnResponse → Type 0
IsWf m =
    (m.result < 2 ^ 32)
    × (m.out_of_game_heartbeat_rate_sec < 2 ^ 32)
    × (m.in_game_heartbeat_rate_sec < 2 ^ 32)
    × (m.client_supplied_steam_id < 2 ^ 64)
    × (m.ip_public < 2 ^ 32)
    × (m.server_real_time < 2 ^ 32)

abbrev encoding : MsgClientLogOnResponse → List ℕ
encoding m =
    le_bytes 4 m.result
    ++ (le_bytes 4 m.out_of_game_heartbeat_rate_sec
        ++ (le_bytes 4 m.in_game_heartbeat_rate_sec
            ++ (le_bytes 8 m.client_supplied_steam_id
                ++ (le_bytes 4 m.ip_public ++ le_bytes 4 m.server_real_time))))

pub MsgClientLogOnResponse-IsSerializable :
    IsSerializable MsgClientLogOnResponse IsWf new serialize deserialize 28
unfolding new serialize deserialize
MsgClientLogOnResponse-IsSerializable = record {
  new_is_wf = omega arith;
  encoding = encoding;
  writes = λ m. Writes-then (Writes-write 4 m.result) (
      Writes-then (Writes-write 4 m.out_of_game_heartbeat_rate_sec) (
        Writes-then (Writes-write 4 m.in_game_heartbeat_rate_sec) (
          Writes-then (Writes-write 8 m.client_supplied_steam_id)
            (Writes-then (Writes-write 4 m.ip_public) (Writes-write 4 m.server_real_time)))));
  parses = λ m h. Parses-bind _ (Parses-read 4 m.result h.0) (
      Parses-bind _ (Parses-read 4 m.out_of_game_heartbeat_rate_sec h.1) (
        Parses-bind _ (Parses-read 4 m.in_game_heartbeat_rate_sec h.2) (
          Parses-bind _ (Parses-read 8 m.client_supplied_steam_id h.3) (
            Parses-bind _ (Parses-read 4 m.ip_public h.4)
              (Parses-last _ (Parses-read 4 m.server_real_time h.5))))));
  size_lem = λ m h. omega (
    arith,
    length-append (le_bytes 4 m.result) (
        le_bytes 4 m.out_of_game_heartbeat_rate_sec
        ++ (le_bytes 4 m.in_game_heartbeat_rate_sec
            ++ (le_bytes 8 m.client_supplied_steam_id
                ++ (le_bytes 4 m.ip_public ++ le_bytes 4 m.server_real_time)))),
    length-le_bytes 4 m.result,
    length-append (le_bytes 4 m.out_of_game_heartbeat_rate_sec) (
        le_bytes 4 m.in_game_heartbeat_rate_sec
        ++ (le_bytes 8 m.client_supplied_steam_id
            ++ (le_bytes 4 m.ip_public ++ le_bytes 4 m.server_real_time))),
    length-le_bytes 4 m.out_of_game_heartbeat_rate_sec,
    length-append (le_bytes 4 m.in_game_heartbeat_rate_sec) (
        le_bytes 8 m.client_supplied_steam_id
        ++ (le_bytes 4 m.ip_public ++ le_bytes 4 m.server_real_time)),
    length-le_bytes 4 m.in_game_heartbeat_rate_sec,
    length-append (le_bytes 8 m.client_supplied_steam_id)
        (le_bytes 4 m.ip_public ++ le_bytes 4 m.server_real_time),
    length-le_bytes 8 m.client_supplied_steam_id,
    length-append (le_bytes 4 m.ip_public) (le_bytes 4 m.server_real_time),
    length-le_bytes 4 m.ip_public,
    length-le_bytes 4 m.server_real_time,
  );
  consumes = Consumes-bind _ (Consumes-read 4 (omega arith)) (λ result.
      Consumes-bind _ (Consumes-read 4 (omega arith)) (λ out_of_game_heartbeat_rate_sec.
        Consumes-bind _ (Consumes-read 4 (omega arith)) (λ in_game_heartbeat_rate_sec.
          Consumes-bind _ (Consumes-read 8 (omega arith)) (λ client_supplied_steam_id.
            Consumes-bind _ (Consumes-read 4 (omega arith))
              (λ ip_public. Consumes-last _ (Consumes-read 4 (omega arith)))))));
}

abbrev pub class : SerializableClass
class = record {
  Body = MsgClientLogOnResponse;
  IsWf = IsWf;
  new = new;
  serialize = serialize;
  deserialize = deserialize;
  size = 28;
  laws = MsgClientLogOnResponse-IsSerializable;
}
