-- ===== src/Internal/MsgClientSetIgnoreFriendResponse.antt =====
-- `struct MsgClientSetIgnoreFriendResponse` of include/steamclient/types/generated/SteamLanguageInternal.hpp: its fields,
-- its default constructor, `Serialize` and `Deserialize`. Every integer is its bit pattern.
use steam_min_cpp.Prelude.{ℕ, ◌^◌, ◌<◌, List, ◌++◌, length-append, arith}
use steam_min_cpp.Stream.{M, ◌>>=◌, ◌>>◌, pure, write, read}
use steam_min_cpp.Stream.Bytes.{le_bytes, length-le_bytes}
use steam_min_cpp.Stream.Laws.{
  Writes-write, Writes-then, Parses-read, Parses-bind, Parses-last, Consumes-read, Consumes-bind,
  Consumes-last,
}
use steam_min_cpp.Internal.Serializable.{IsSerializable, SerializableClass}
use steam_min_cpp.Enums.EMsg
use steam_min_cpp.Enums.EResult

pub record MsgClientSetIgnoreFriendResponse : Type 0 where
  pub friend_id : ℕ
  pub result : ℕ

unfoldable pub new : MsgClientSetIgnoreFriendResponse
new = record { friend_id = 0; result = EResult.invalid }

unfoldable pub get_emsg : MsgClientSetIgnoreFriendResponse → ℕ
get_emsg m = EMsg.client_set_ignore_friend_response

unfoldable pub serialize : MsgClientSetIgnoreFriendResponse → M (Unit {0})
serialize m = do write 8 m.friend_id; write 4 m.result

unfoldable pub deserialize : M MsgClientSetIgnoreFriendResponse
deserialize = do
  friend_id ← read 8
  result ← read 4
  pure (record { friend_id = friend_id; result = result })

-- Each field is a value of its type.
abbrev pub IsWf : MsgClientSetIgnoreFriendResponse → Type 0
IsWf m = (m.friend_id < 2 ^ 64) × (m.result < 2 ^ 32)

abbrev encoding : MsgClientSetIgnoreFriendResponse → List ℕ
encoding m = le_bytes 8 m.friend_id ++ le_bytes 4 m.result

pub MsgClientSetIgnoreFriendResponse-IsSerializable :
    IsSerializable MsgClientSetIgnoreFriendResponse IsWf new serialize deserialize 12
unfolding new serialize deserialize
MsgClientSetIgnoreFriendResponse-IsSerializable = record {
  new_is_wf = omega arith;
  encoding = encoding;
  writes = λ m. Writes-then (Writes-write 8 m.friend_id) (Writes-write 4 m.result);
  parses = λ m h.
      Parses-bind _ (Parses-read 8 m.friend_id h.0) (Parses-last _ (Parses-read 4 m.result h.1));
  size_lem = λ m h. omega (
    arith,
    length-append (le_bytes 8 m.friend_id) (le_bytes 4 m.result),
    length-le_bytes 8 m.friend_id,
    length-le_bytes 4 m.result,
  );
  consumes =
      Consumes-bind _ (Consumes-read 8 (omega arith))
        (λ friend_id. Consumes-last _ (Consumes-read 4 (omega arith)));
}

abbrev pub class : SerializableClass
class = record {
  Body = MsgClientSetIgnoreFriendResponse;
  IsWf = IsWf;
  new = new;
  serialize = serialize;
  deserialize = deserialize;
  size = 12;
  laws = MsgClientSetIgnoreFriendResponse-IsSerializable;
}
