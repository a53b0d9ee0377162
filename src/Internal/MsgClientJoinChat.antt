-- ===== src/Internal/MsgClientJoinChat.antt =====
-- `struct MsgClientJoinChat` of include/steamclient/types/generated/SteamLanguageInternal.hpp: its fields,
-- its default constructor, `Serialize` and `Deserialize`. Every integer is its bit pattern.
use steam_min_cpp.Prelude.{ℕ, ◌^◌, ◌<◌, List, ◌++◌, length-append, arith}
use steam_min_cpp.Stream.{M, ◌>>=◌, ◌>>◌, pure, write, read}
use steam_min_cpp.Stream.Bytes.{le_bytes, length-le_bytes}
use steam_min_cpp.Stream.Laws.{
  Writes-write, Writes-then, Parses-read, Parses-bind, Parses-last, Consumes-read, Consumes-bind,
  Consumes-last,
}
use steam_min_cpp.Internal.Serializable.{IsSerializable, SerializableClass}
use steam_min_cpp.Enums.EMsg

pub record MsgClientJoinChat : Type 0 where
  pub steam_id_chat : ℕ
  pub is_voice_speaker : ℕ

unfoldable pub new : MsgClientJoinChat
new = record { steam_id_chat = 0; is_voice_speaker = 0 }

unfoldable pub get_emsg : MsgClientJoinChat → ℕ
get_emsg m = EMsg.client_join_chat

unfoldable pub serialize : MsgClientJoinChat → M (Unit {0})
serialize m = do write 8 m.steam_id_chat; write 1 m.is_voice_speaker

unfoldable pub deserialize : M MsgClientJoinChat
deserialize = do
  steam_id_chat ← read 8
  is_voice_speaker ← read 1
  pure (record { steam_id_chat = steam_id_chat; is_voice_speaker = is_voice_speaker })

-- Each field is a value of its type.
abbrev pub IsWf : MsgClientJoinChat → Type 0
IsWf m = (m.steam_id_chat < 2 ^ 64) × (m.is_voice_speaker < 2 ^ 8)

abbrev encoding : MsgClientJoinChat → List ℕ
encoding m = le_bytes 8 m.steam_id_chat ++ le_bytes 1 m.is_voice_speaker

pub MsgClientJoinChat-IsSerializable :
    IsSerializable MsgClientJoinChat IsWf new serialize deserialize 9
unfolding new serialize deserialize
MsgClientJoinChat-IsSerializable = record {
  new_is_wf = omega arith;
  encoding = encoding;
  writes = λ m. Writes-then (Writes-write 8 m.steam_id_chat) (Writes-write 1 m.is_voice_speaker);
  parses = λ m h.
      Parses-bind _ (Parses-read 8 m.steam_id_chat h.0)
        (Parses-last _ (Parses-read 1 m.is_voice_speaker h.1));
  size_lem = λ m h. omega (
    arith,
    length-append (le_bytes 8 m.steam_id_chat) (le_bytes 1 m.is_voice_speaker),
    length-le_bytes 8 m.steam_id_chat,
    length-le_bytes 1 m.is_voice_speaker,
  );
  consumes =
      Consumes-bind _ (Consumes-read 8 (omega arith))
        (λ steam_id_chat. Consumes-last _ (Consumes-read 1 (omega arith)));
}

abbrev pub class : SerializableClass
class = record {
  Body = MsgClientJoinChat;
  IsWf = IsWf;
  new = new;
  serialize = serialize;
  deserialize = deserialize;
  size = 9;
  laws = MsgClientJoinChat-IsSerializable;
}
