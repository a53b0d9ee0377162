-- ===== src/Internal/MsgClientChatAction.antt =====
-- `struct MsgClientChatAction` of include/steamclient/types/generated/SteamLanguageInternal.hpp: its fields,
-- its default constructor, `Serialize` and `Deserialize`. Every integer is its bit pattern.
use steam_min_cpp.Prelude.{ℕ, ◌^◌, ◌<◌, List, ◌++◌, length-append, arith}
use steam_min_cpp.Stream.{M, ◌>>=◌, ◌>>◌, pure, write, read}
use steam_min_cpp.Stream.Bytes.{le_bytes, length-le_bytes}
use steam_min_cpp.Stream.Laws.{
  Writes-write, Writes-then, Parses-read, Parses-bind, Parses-last, Consumes-read, Consumes-bind,
  Consumes-last,
}
use steam_min_cpp.Internal.Serializable.{IsSerializable, SerializableClass}
use steam_min_cpp.Enums.EChatAction
use steam_min_cpp.Enums.EMsg

pub record MsgClientChatAction : Type 0 where
  pub steam_id_chat : ℕ
  pub steam_id_user_to_act_on : ℕ
  pub chat_action : ℕ

unfoldable pub new : MsgClientChatAction
new = record { steam_id_chat = 0; steam_id_user_to_act_on = 0; chat_action = EChatAction.unknown }

unfoldable pub get_emsg : MsgClientChatAction → ℕ
get_emsg m = EMsg.client_chat_action

unfoldable pub serialize : MsgClientChatAction → M (Unit {0})
serialize m = do write 8 m.steam_id_chat; write 8 m.steam_id_user_to_act_on; write 4 m.chat_action

unfoldable pub deserialize : M MsgClientChatAction
deserialize = do
  steam_id_chat ← read 8
  steam_id_user_to_act_on ← read 8
  chat_action ← read 4
  pure (record {
    steam_id_chat = steam_id_chat;
    steam_id_user_to_act_on = steam_id_user_to_act_on;
    chat_action = chat_action;
  })

-- Each field is a value of its type.
abbrev pub IsWf : MsgClientChatAction → Type 0
IsWf m =
    (m.steam_id_chat < 2 ^ 64) × (m.steam_id_user_to_act_on < 2 ^ 64) × (m.chat_action < 2 ^ 32)

abbrev encoding : MsgClientChatAction → List ℕ
encoding m =
    le_bytes 8 m.steam_id_chat ++ (le_bytes 8 m.steam_id_user_to_act_on ++ le_bytes 4 m.chat_action)

pub MsgClientChatAction-IsSerializable :
    IsSerializable MsgClientChatAction IsWf new serialize deserialize 20
unfolding new serialize deserialize
MsgClientChatAction-IsSerializable = record {
  new_is_wf = omega arith;
  encoding = encoding;
  writes = λ m.
      Writes-then (Writes-write 8 m.steam_id_chat)
        (Writes-then (Writes-write 8 m.steam_id_user_to_act_on) (Writes-write 4 m.chat_action));
  parses = λ m h. Parses-bind _ (Parses-read 8 m.steam_id_chat h.0) (
      Parses-bind _ (Parses-read 8 m.steam_id_user_to_act_on h.1)
        (Parses-last _ (Parses-read 4 m.chat_action h.2)));
  size_lem = λ m h. omega (
    arith,
    length-append (le_bytes 8 m.steam_id_chat)
        (le_bytes 8 m.steam_id_user_to_act_on ++ le_bytes 4 m.chat_action),
    length-le_bytes 8 m.steam_id_chat,
    length-append (le_bytes 8 m.steam_id_user_to_act_on) (le_bytes 4 m.chat_action),
    length-le_bytes 8 m.steam_id_user_to_act_on,
    length-le_bytes 4 m.chat_action,
  );
  consumes = Consumes-bind _ (Consumes-read 8 (omega arith)) (λ steam_id_chat.
      Consumes-bind _ (Consumes-read 8 (omega arith))
        (λ steam_id_user_to_act_on. Consumes-last _ (Consumes-read 4 (omega arith))));
}

abbrev pub class : SerializableClass
class = record {
  Body = MsgClientChatAction;
  IsWf = IsWf;
  new = new;
  serialize = serialize;
  deserialize = deserialize;
  size = 20;
  laws = MsgClientChatAction-IsSerializable;
}
