-- ===== src/Internal/MsgClientUpdateGuestPassesList.antt =====
-- `struct MsgClientUpdateGuestPassesList` of include/steamclient/types/generated/SteamLanguageInternal.hpp: its fields,
-- its default constructor, `Serialize` and `Deserialize`. Every integer is its bit pattern.
use steam_min_cpp.Prelude.{ℕ, ◌^◌, ◌<◌, List, ◌++◌, length-append, arith}
use steam_min_cpp.Stream.{M, ◌>>=◌, ◌>>◌, pure, write, read}
use steam_min_cpp.Stream.Bytes.{le_bytes, length-le_bytes}
use steam_min_cpp.Stream.Laws.{
  Writes-write, Writes-then, Parses-read, Parses-bind, Parses-last, Consumes-read, Consumes-bind,
  Consumes-last,
}
use steam_min_cpp.Internal.Serializable.{IsSerializable, SerializableClass}
use steam_min_cpp.Enums.EMsg
use steam_min_cpp.Enums.EResult

pub record MsgClientUpdateGuestPassesList : Type 0 where
  pub result : ℕ
  pub count_guest_passes_to_give : ℕ
  pub count_guest_passes_to_redeem : ℕ

unfoldable pub new : MsgClientUpdateGuestPassesList
new = record {
  result = EResult.invalid;
  count_guest_passes_to_give = 0;
  count_guest_passes_to_redeem = 0;
}

unfoldable pub get_emsg : MsgClientUpdateGuestPassesList → ℕ
get_emsg m = EMsg.client_update_guest_passes_list

unfoldable pub serialize : MsgClientUpdateGuestPassesList → M (Unit {0})
serialize m = do
  write 4 m.result
  write 4 m.count_guest_passes_to_give
  write 4 m.count_guest_passes_to_redeem

unfoldable pub deserialize : M MsgClientUpdateGuestPassesList
deserialize = do
  result ← read 4
  count_guest_passes_to_give ← read 4
  count_guest_passes_to_redeem ← read 4
  pure (record {
    result = result;
    count_guest_passes_to_give = count_guest_passes_to_give;
    count_guest_passes_to_redeem = count_guest_passes_to_redeem;
  })

-- Each field is a value of its type.
abbrev pub IsWf : MsgClientUpdateGuestPassesList → Type 0
IsWf m =
    (m.result < 2 ^ 32)
    × (m.count_guest_passes_to_give < 2 ^ 32)
    × (m.count_guest_passes_to_redeem < 2 ^ 32)

abbrev encoding : MsgClientUpdateGuestPassesList → List ℕ
encoding m =
    le_bytes 4 m.result
    ++ (le_bytes 4 m.count_guest_passes_to_give ++ le_bytes 4 m.count_guest_passes_to_redeem)

pub MsgClientUpdateGuestPassesList-IsSerializable :
    IsSerializable MsgClientUpdateGuestPassesList IsWf new serialize deserialize 12
unfolding new serialize deserialize
MsgClientUpdateGuestPassesList-IsSerializable = record {
  new_is_wf = omega arith;
  encoding = encoding;
  writes = λ m. Writes-then (Writes-write 4 m.result) (
      Writes-then (Writes-write 4 m.count_guest_passes_to_give)
        (Writes-write 4 m.count_guest_passes_to_redeem));
  parses = λ m h. Parses-bind _ (Parses-read 4 m.result h.0) (
      Parses-bind _ (Parses-read 4 m.count_guest_passes_to_give h.1)
        (Parses-last _ (Parses-read 4 m.count_guest_passes_to_redeem h.2)));
  size_lem = λ m h. omega (
    arith,
    length-append (le_bytes 4 m.result)
        (le_bytes 4 m.count_guest_passes_to_give ++ le_bytes 4 m.count_guest_passes_to_redeem),
    length-le_bytes 4 m.result,
    length-append (le_bytes 4 m.count_guest_passes_to_give)
        (le_bytes 4 m.count_guest_passes_to_redeem),
    length-le_bytes 4 m.count_guest_passes_to_give,
    length-le_bytes 4 m.count_guest_passes_to_redeem,
  );
  consumes = Consumes-bind _ (Consumes-read 4 (omega arith)) (λ result.
      Consumes-bind _ (Consumes-read 4 (omega arith))
        (λ count_guest_passes_to_give. Consumes-last _ (Consumes-read 4 (omega arith))));
}

abbrev pub class : SerializableClass
class = record {
  Body = MsgClientUpdateGuestPassesList;
  IsWf = IsWf;
  new = new;
  serialize = serialize;
  deserialize = deserialize;
  size = 12;
  laws = MsgClientUpdateGuestPassesList-IsSerializable;
}
