-- ===== src/Internal/MsgClientMarketingMessageUpdate2.antt =====
-- `struct MsgClientMarketingMessageUpdate2` of include/steamclient/types/generated/SteamLanguageInternal.hpp: its fields,
-- its default constructor, `Serialize` and `Deserialize`. Every integer is its bit pattern.
use steam_min_cpp.Prelude.{ℕ, ◌^◌, ◌<◌, List, ◌++◌, length-append, arith}
use steam_min_cpp.Stream.{M, ◌>>=◌, ◌>>◌, pure, write, read}
use steam_min_cpp.Stream.Bytes.{le_bytes, length-le_bytes}
use steam_min_cpp.Stream.Laws.{
  Writes-write, Writes-then, Parses-read, Parses-bind, Parses-last, Consumes-read, Consumes-bind,
  Consumes-last,
}
use steam_min_cpp.Internal.Serializable.{IsSerializable, SerializableClass}
use steam_min_cpp.Enums.EMsg

pub record MsgClientMarketingMessageUpdate2 : Type 0 where
  pub marketing_message_update_time : ℕ
  pub count : ℕ

unfoldable pub new : MsgClientMarketingMessageUpdate2
new = record { marketing_message_update_time = 0; count = 0 }

unfoldable pub get_emsg : MsgClientMarketingMessageUpdate2 → ℕ
get_emsg m = EMsg.client_marketing_message_update2

unfoldable pub serialize : MsgClientMarketingMessageUpdate2 → M (Unit {0})
serialize m = do write 4 m.marketing_message_update_time; write 4 m.count

unfoldable pub deserialize : M MsgClientMarketingMessageUpdate2
deserialize = do
  marketing_message_update_time ← read 4
  count ← read 4
  pure (record { marketing_message_update_time = marketing_message_update_time; count = count })

-- Each field is a value of its type.
abbrev pub IsWf : MsgClientMarketingMessageUpdate2 → Type 0
IsWf m = (m.marketing_message_update_time < 2 ^ 32) × (m.count < 2 ^ 32)

abbrev encoding : MsgClientMarketingMessageUpdate2 → List ℕ
encoding m = le_bytes 4 m.marketing_message_update_time ++ le_bytes 4 m.count

pub MsgClientMarketingMessageUpdate2-IsSerializable :
    IsSerializable MsgClientMarketingMessageUpdate2 IsWf new serialize deserialize 8
unfolding new serialize deserialize
MsgClientMarketingMessageUpdate2-IsSerializable = record {
  new_is_wf = omega arith;
  encoding = encoding;
  writes =
      λ m. Writes-then (Writes-write 4 m.marketing_message_update_time) (Writes-write 4 m.count);
  parses = λ m h.
      Parses-bind _ (Parses-read 4 m.marketing_message_update_time h.0)
        (Parses-last _ (Parses-read 4 m.count h.1));
  size_lem = λ m h. omega (
    arith,
    length-append (le_bytes 4 m.marketing_message_update_time) (le_bytes 4 m.count),
    length-le_bytes 4 m.marketing_message_update_time,
    length-le_bytes 4 m.count,
  );
  consumes =
      Consumes-bind _ (Consumes-read 4 (omega arith))
        (λ marketing_message_update_time. Consumes-last _ (Consumes-read 4 (omega arith)));
}

abbrev pub class : SerializableClass
class = record {
  Body = MsgClientMarketingMessageUpdate2;
  IsWf = IsWf;
  new = new;
  serialize = serialize;
  deserialize = deserialize;
  size = 8;
  laws = MsgClientMarketingMessageUpdate2-IsSerializable;
}
