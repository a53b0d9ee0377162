-- ===== src/Tests/Routing.antt =====
-- The dispatch of packets and the frames of a multi message at concrete inputs.
use steam_min_cpp.Prelude.{
  ℕ, ◌<◌, ◌≡◌, ◌≢◌, refl, Option, none, List, [], ◌∷◌, ◌++◌, length, replicate, arith,
  length-replicate,
}
use steam_min_cpp.Prelude.Results.{ok}
use steam_min_cpp.MsgUtil.{get_msg}
use steam_min_cpp.Dispatch.{max_emsg, calls, DispatchTable, proto_register, dispatch_proto}
use steam_min_cpp.Dispatch.Laws.{dispatch_proto-proto_register}
use steam_min_cpp.Stream.Bytes.{le_value, le_bytes}
use steam_min_cpp.Multi.{frames_from, multi_frames, read_frame}
use steam_min_cpp.Multi.Laws.{packed, multi_frames-packed}
use steam_min_cpp.Multi.Rounds.{frames_from-multi_frames}

-- Handlers are named by numbers.
abbrev table : DispatchTable ℕ ℕ
table = record { proto = replicate max_emsg none; msg = replicate max_emsg none }

no_handlers : length (replicate {A = Option ℕ} max_emsg none) ≡ max_emsg
no_handlers = length-replicate {A = Option ℕ} max_emsg none

-- The number MAX_EMSG with the protobuf flag.
abbrev flagged : ℕ
flagged = 0x8000300d

small_number : get_msg 0x80000001 < max_emsg
unfolding get_msg
small_number = omega arith

dispatch_proto-proto_register_example :
    (after : DispatchTable ℕ ℕ) × (proto_register ℕ ℕ 1 7 table ≡ ok after)
    × (length after.proto ≡ max_emsg)
    × ((get_msg 0x80000001 ≡ 1) → dispatch_proto after 0x80000001 ≡ ok (calls 7))
    × ((get_msg 0x80000001 ≢ 1) → dispatch_proto after 0x80000001 ≡ dispatch_proto table 0x80000001)
dispatch_proto-proto_register_example =
    dispatch_proto-proto_register table 1 7 0x80000001 (no_handlers) (omega arith) small_number

abbrev two_frames : List (List ℕ)
two_frames = (5 ∷ 6 ∷ []) ∷ [] ∷ []

multi_frames-packed_example : multi_frames (packed two_frames ++ (1 ∷ 2 ∷ [])) ≡ two_frames
unfolding le_bytes
multi_frames-packed_example =
    multi_frames-packed two_frames (1 ∷ 2 ∷ []) (omega arith, (omega arith, tt)) (omega arith)
      (omega arith)

-- A length that is longer than what is left ends the loop.
abbrev truncated : List ℕ
truncated = 1 ∷ 0 ∷ 0 ∷ 0 ∷ 9 ∷ 200 ∷ 0 ∷ 0 ∷ 0 ∷ 8 ∷ []

truncated_frames : multi_frames truncated ≡ (9 ∷ []) ∷ []
unfolding multi_frames read_frame le_value
truncated_frames = refl

frames_from-multi_frames_example : frames_from 50 truncated 0 ≡ multi_frames truncated
frames_from-multi_frames_example =
    frames_from-multi_frames 50 truncated
      (
        omega arith,
        (
          omega arith,
          (
            omega arith,
            (
              omega arith,
              (
                omega arith,
                (omega arith, (omega arith, (omega arith, (omega arith, (omega arith, tt))))),
              ),
            ),
          ),
        ),
      )
      (omega arith) (omega arith)
