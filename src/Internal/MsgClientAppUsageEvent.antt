-- ===== src/Internal/MsgClientAppUsageEvent.antt =====
-- `struct MsgClientAppUsageEvent` of include/steamclient/types/generated/SteamLanguageInternal.hpp: its fields,
-- its default constructor, `Serialize` and `Deserialize`. Every integer is its bit pattern.
use steam_min_cpp.Prelude.{ℕ, ◌^◌, ◌<◌, List, ◌++◌, length-append, arith}
use steam_min_cpp.Stream.{M, ◌>>=◌, ◌>>◌, pure, write, read}
use steam_min_cpp.Stream.Bytes.{le_bytes, length-le_bytes}
use steam_min_cpp.Stream.Laws.{
  Writes-write, Writes-then, Parses-read, Parses-bind, Parses-last, Consumes-read, Consumes-bind,
  Consumes-last,
}
use steam_min_cpp.Internal.Serializable.{IsSerializable, SerializableClass}
use steam_min_cpp.Enums.EAppUsageEvent
use steam_min_cpp.Enums.EMsg

pub record MsgClientAppUsageEvent : Type 0 where
  pub app_usage_event : ℕ
  pub game_id : ℕ
  pub offline : ℕ

unfoldable pub new : MsgClientAppUsageEvent
new = record { app_usage_event = EAppUsageEvent.unknown; game_id = 0; offline = 0 }

unfoldable pub get_emsg : MsgClientAppUsageEvent → ℕ
get_emsg m = EMsg.client_app_usage_event

unfoldable pub serialize : MsgClientAppUsageEvent → M (Unit {0})
serialize m = do write 4 m.app_usage_event; write 8 m.game_id; write 2 m.offline

unfoldable pub deserialize : M MsgClientAppUsageEvent
deserialize = do
  app_usage_event ← read 4
  game_id ← read 8
  offline ← read 2
  pure (record { app_usage_event = app_usage_event; game_id = game_id; offline = offline })

-- Each field is a value of its type.
abbrev pub IsWf : MsgClientAppUsageEvent → Type 0
IsWf m = (m.app_usage_event < 2 ^ 32) × (m.game_id < 2 ^ 64) × (m.offline < 2 ^ 16)

abbrev encoding : MsgClientAppUsageEvent → List ℕ
encoding m = le_bytes 4 m.app_usage_event ++ (le_bytes 8 m.game_id ++ le_bytes 2 m.offline)

pub MsgClientAppUsageEvent-IsSerializable :
    IsSerializable MsgClientAppUsageEvent IsWf new serialize deserialize 14
unfolding new serialize deserialize
MsgClientAppUsageEvent-IsSerializable = record {
  new_is_wf = omega arith;
  encoding = encoding;
  writes = λ m.
      Writes-then (Writes-write 4 m.app_usage_event)
        (Writes-then (Writes-write 8 m.game_id) (Writes-write 2 m.offline));
  parses = λ m h.
      Parses-bind _ (Parses-read 4 m.app_usage_event h.0)
        (Parses-bind _ (Parses-read 8 m.game_id h.1) (Parses-last _ (Parses-read 2 m.offline h.2)));
  size_lem = λ m h. omega (
    arith,
    length-append (le_bytes 4 m.app_usage_event) (le_bytes 8 m.game_id ++ le_bytes 2 m.offline),
    length-le_bytes 4 m.app_usage_event,
    length-append (le_bytes 8 m.game_id) (le_bytes 2 m.offline),
    length-le_bytes 8 m.game_id,
    length-le_bytes 2 m.offline,
  );
  consumes = Consumes-bind _ (Consumes-read 4 (omega arith)) (λ app_usage_event.
      Consumes-bind _ (Consumes-read 8 (omega arith))
        (λ game_id. Consumes-last _ (Consumes-read 2 (omega arith))));
}

abbrev pub class : SerializableClass
class = record {
  Body = MsgClientAppUsageEvent;
  IsWf = IsWf;
  new = new;
  serialize = serialize;
  deserialize = deserialize;
  size = 14;
  laws = MsgClientAppUsageEvent-IsSerializable;
}
