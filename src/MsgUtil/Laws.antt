-- ===== src/MsgUtil/Laws.antt =====
-- The flag is bit 31: setting, testing and clearing it, in plain arithmetic and together.
use steam_min_cpp.Prelude.{ℕ, ◌+◌, ◌%◌, ◌^◌, ◌<◌, ◌≡◌, Bool, true, false, arith, leb}
use steam_min_cpp.Prelude.Bits.{bit_and_low, bit_and_bit, bit_or_field}
use steam_min_cpp.MsgUtil.{make_msg, get_msg, is_protobuf_msg}

pub get_msg_lem : (raw : ℕ) → get_msg raw ≡ raw % 2 ^ 31
unfolding get_msg
get_msg_lem raw = bit_and_low 31 raw

pub make_msg-true : (msg : ℕ) → msg < 2 ^ 31 → make_msg msg true ≡ msg + 2 ^ 31
unfolding make_msg
make_msg-true msg h = bit_or_field 31 msg 1 h

pub is_protobuf_msg_lem : (raw : ℕ) → raw < 2 ^ 32 → is_protobuf_msg raw ≡ leb (2 ^ 31) raw
unfolding is_protobuf_msg
is_protobuf_msg_lem raw h = ground (arith, bit_and_bit 31 raw)

-- A message number below 2 ^ 31, with or without the flag, is a uint32_t from which `get_msg`
-- takes the number and `is_protobuf_msg` the flag.
pub get_msg-make_msg :
    (msg : ℕ) (is_proto : Bool)
    → msg < 2 ^ 31
    → (make_msg msg is_proto < 2 ^ 32)
      × (get_msg (make_msg msg is_proto) ≡ msg)
      × (is_protobuf_msg (make_msg msg is_proto) ≡ is_proto)
get_msg-make_msg msg true h = ground (
  arith,
  make_msg-true msg h,
  get_msg_lem (make_msg msg true),
  is_protobuf_msg_lem (make_msg msg true),
)
get_msg-make_msg msg false h =
    unfold make_msg in ground (arith, get_msg_lem msg, is_protobuf_msg_lem msg)

-- Every uint32_t is the number and the flag that are read from it.
pub make_msg-get_msg : (raw : ℕ) → raw < 2 ^ 32 → make_msg (get_msg raw) (is_protobuf_msg raw) ≡ raw
unfolding make_msg
make_msg-get_msg raw h =
    ground (arith, get_msg_lem raw, is_protobuf_msg_lem raw h, bit_or_field 31 (raw % 2 ^ 31) 1)
