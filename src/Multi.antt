-- ===== src/Multi.antt =====
-- src/routing/events/handlers/multi_handler.cpp: the frames that a CMsgMulti holds.
pub mod Laws
pub mod Rounds
use steam_min_cpp.Prelude.{
  ℕ, zero, suc, ◌+◌, ◌≤◌, ◌<◌, ◌≡◌, Option, none, some, List, [], ◌∷◌, length, take, drop, ltb,
  if◌then◌else◌,
}
use steam_min_cpp.Stream.{add_size}
use steam_min_cpp.Stream.Bytes.{le_value}

-- The frame and the new offset, or none where it returns false. The length is little-endian on
-- every host.
unfoldable pub read_frame : List ℕ → ℕ → Option (List ℕ × ℕ)
read_frame payload offset =
    if ltb (length payload) (add_size offset 4)
    then none
    else (let sub_size = le_value (take 4 (drop offset payload)) in
        let start = add_size offset 4 in
        if ltb (length payload) (add_size start sub_size)
        then none
        else some (take sub_size (drop start payload), add_size start sub_size))

-- The frames that `while (read_frame(payload, offset, frame))` hands to `consume_frame`, in order;
-- the first argument bounds the rounds.
unfoldable pub frames_from : ℕ → List ℕ → ℕ → List (List ℕ)
frames_from zero payload offset = []
frames_from (suc rounds) payload offset = elim (read_frame payload offset) [
  | none ↦ []
  | some (frame, next) ↦ frame ∷ frames_from rounds payload next
]

-- The payload's length bounds the rounds.
unfoldable pub multi_frames : List ℕ → List (List ℕ)
unfolding frames_from
multi_frames payload = frames_from (length payload) payload 0
