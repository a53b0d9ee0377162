-- ===== src/Internal/MsgClientChatActionResult.antt =====
-- `struct MsgClientChatActionResult` of include/steamclient/types/generated/SteamLanguageInternal.hpp: its fields,
-- its default constructor, `Serialize` and `Deserialize`. Every integer is its bit pattern.
use steam_min_cpp.Prelude.{ℕ, ◌^◌, ◌<◌, List, ◌++◌, length-append, arith}
use steam_min_cpp.Stream.{M, ◌>>=◌, ◌>>◌, pure, write, read}
use steam_min_cpp.Stream.Bytes.{le_bytes, length-le_bytes}
use steam_min_cpp.Stream.Laws.{
  Writes-write, Writes-then, Parses-read, Parses-bind, Parses-last, Consumes-read, Consumes-bind,
  Consumes-last,
}
use steam_min_cpp.Internal.Serializable.{IsSerializable, SerializableClass}
use steam_min_cpp.Enums.EChatAction
use steam_min_cpp.Enums.EChatActionResult
use steam_min_cpp.Enums.EMsg

pub record MsgClientChatActionResult : Type 0 where
  pub steam_id_chat : ℕ
  pub steam_id_user_acted_on : ℕ
  pub chat_action : ℕ
  pub action_result : ℕ

unfoldable pub new : MsgClientChatActionResult
new = record {
  steam_id_chat = 0;
  steam_id_user_acted_on = 0;
  chat_action = EChatAction.unknown;
  action_result = EChatActionResult.unknown;
}

unfoldable pub get_emsg : MsgClientChatActionResult → ℕ
get_emsg m = EMsg.client_chat_action_result

unfoldable pub serialize : MsgClientChatActionResult → M (Unit {0})
serialize m = do
  write 8 m.steam_id_chat
  write 8 m.steam_id_user_acted_on
  write 4 m.chat_action
  write 4 m.action_result

unfoldable pub deserialize : M MsgClientChatActionResult
deserialize = do
  steam_id_chat ← read 8
  steam_id_user_acted_on ← read 8
  chat_action ← read 4
  action_result ← read 4
  pure (record {
    steam_id_chat = steam_id_chat;
    steam_id_user_acted_on = steam_id_user_acted_on;
    chat_action = chat_action;
    action_result = action_result;
  })

-- Each field is a value of its type.
abbrev pub IsWf : MsgClientChatActionResult → Type 0
IsWf m =
    (m.steam_id_chat < 2 ^ 64)
    × (m.steam_id_user_acted_on < 2 ^ 64)
    × (m.chat_action < 2 ^ 32)
    × (m.action_result < 2 ^ 32)

abbrev encoding : MsgClientChatActionResult → List ℕ
encoding m =
    le_bytes 8 m.steam_id_chat
    ++ (le_bytes 8 m.steam_id_user_acted_on
        ++ (le_bytes 4 m.chat_action ++ le_bytes 4 m.action_result))

pub MsgClientChatActionResult-IsSerializable :
    IsSerializable MsgClientChatActionResult IsWf new serialize deserialize 24
unfolding new serialize deserialize
MsgClientChatActionResult-IsSerializable = record {
  new_is_wf = omega arith;
  encoding = encoding;
  writes = λ m. Writes-then (Writes-write 8 m.steam_id_chat) (
      Writes-then (Writes-write 8 m.steam_id_user_acted_on)
        (Writes-then (Writes-write 4 m.chat_action) (Writes-write 4 m.action_result)));
  parses = λ m h. Parses-bind _ (Parses-read 8 m.steam_id_chat h.0) (
      Parses-bind _ (Parses-read 8 m.steam_id_user_acted_on h.1) (
        Parses-bind _ (Parses-read 4 m.chat_action h.2)
          (Parses-last _ (Parses-read 4 m.action_result h.3))));
  size_lem = λ m h. omega (
    arith,
    length-append (le_bytes 8 m.steam_id_chat) (
        le_bytes 8 m.steam_id_user_acted_on
        ++ (le_bytes 4 m.chat_action ++ le_bytes 4 m.action_result)),
    length-le_bytes 8 m.steam_id_chat,
    length-append (le_bytes 8 m.steam_id_user_acted_on)
        (le_bytes 4 m.chat_action ++ le_bytes 4 m.action_result),
    length-le_bytes 8 m.steam_id_user_acted_on,
    length-append (le_bytes 4 m.chat_action) (le_bytes 4 m.action_result),
    length-le_bytes 4 m.chat_action,
    length-le_bytes 4 m.action_result,
  );
  consumes = Consumes-bind _ (Consumes-read 8 (omega arith)) (λ steam_id_chat.
      Consumes-bind _ (Consumes-read 8 (omega arith)) (λ steam_id_user_acted_on.
        Consumes-bind _ (Consumes-read 4 (omega arith))
          (λ chat_action. Consumes-last _ (Consumes-read 4 (omega arith)))));
}

abbrev pub class : SerializableClass
class = record {
  Body = MsgClientChatActionResult;
  IsWf = IsWf;
  new = new;
  serialize = serialize;
  deserialize = deserialize;
  size = 24;
  laws = MsgClientChatActionResult-IsSerializable;
}
