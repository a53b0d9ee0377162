-- ===== src/MsgUtil.antt =====
-- include/steamclient/utilities/msg_utils.hpp: the protobuf flag of a message number, a uint32_t.
pub mod Laws
use steam_min_cpp.Prelude.{ℕ, ◌-◌, ◌^◌, bit_and, bit_or, Bool, ltb, if◌then◌else◌}

abbrev pub proto_mask : ℕ
proto_mask = 0x80000000

-- `~PROTO_MASK` in 32 bits.
abbrev pub proto_unmask : ℕ
proto_unmask = 2 ^ 32 - 1 - proto_mask

unfoldable pub make_msg : ℕ → Bool → ℕ
make_msg msg is_proto = if is_proto then bit_or msg proto_mask else msg

unfoldable pub get_msg : ℕ → ℕ
get_msg raw = bit_and raw proto_unmask

unfoldable pub make_gc_msg : ℕ → Bool → ℕ
make_gc_msg msg is_proto = if is_proto then bit_or msg proto_mask else msg

unfoldable pub get_gc_msg : ℕ → ℕ
get_gc_msg raw = bit_and raw proto_unmask

unfoldable pub is_protobuf_msg : ℕ → Bool
is_protobuf_msg emsg = ltb 0 (bit_and emsg proto_mask)
