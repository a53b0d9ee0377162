-- ===== src/Multi/Rounds.antt =====
-- The loop over the frames of src/routing/events/handlers/multi_handler.cpp: its rounds.
use steam_min_cpp.Prelude.{
  ℕ, zero, suc, ◌+◌, ◌^◌, ◌≤◌, ◌<◌, ◌≡◌, refl, sym, ap, ◌∙◌, List, [], ◌∷◌, All, length, take, drop,
  arith, Option-cases, inl, inr, OnSome,
}
use steam_min_cpp.Stream.Bytes.{IsByte, le_value}
use steam_min_cpp.Multi.{read_frame, frames_from, multi_frames}
use steam_min_cpp.Multi.Laws.{frames_from_ends, frames_from_next, read_frame_ends}

All-drop : (n : ℕ) (xs : List ℕ) → All IsByte xs → All IsByte (drop n xs)
All-drop zero xs h = h
All-drop (suc n) [] h = tt
All-drop (suc n) (x ∷ xs) (hx, h) = All-drop n xs h

sub_size_bound : (xs : List ℕ) → All IsByte xs → le_value (take 4 xs) < 2 ^ 32
unfolding le_value
sub_size_bound [] h = omega arith
sub_size_bound (a ∷ []) (ha, h) = omega arith
sub_size_bound (a ∷ b ∷ []) (ha, (hb, h)) = omega arith
sub_size_bound (a ∷ b ∷ c ∷ []) (ha, (hb, (hc, h))) = omega arith
sub_size_bound (a ∷ b ∷ c ∷ d ∷ xs) (ha, (hb, (hc, (hd, h)))) = omega arith

-- A frame that is read moves the offset by four bytes or more, inside of the payload.
read_frame_moves :
    (payload : List ℕ) (offset : ℕ)
    → All IsByte payload
    → length payload < 2 ^ 63
    → offset ≤ length payload
    → OnSome (λ r. (offset + 4 ≤ r.1) × (r.1 ≤ length payload)) (read_frame payload offset)
unfolding read_frame
read_frame_moves payload offset h fits inside =
    ground (arith, sub_size_bound (drop offset payload) (All-drop offset payload h))

rounds_enough :
    (n m : ℕ) (payload : List ℕ) (offset : ℕ)
    → All IsByte payload
    → length payload < 2 ^ 63
    → offset ≤ length payload
    → length payload ≤ offset + n
    → length payload ≤ offset + m
    → frames_from n payload offset ≡ frames_from m payload offset
rounds_enough zero zero payload offset h fits inside a b = refl
rounds_enough zero (suc m) payload offset h fits inside a b =
    frames_from_ends zero payload offset (read_frame_ends payload offset inside (omega arith) fits)
    ∙ sym (
        frames_from_ends (suc m) payload offset
          (read_frame_ends payload offset inside (omega arith) fits))
rounds_enough (suc n) zero payload offset h fits inside a b =
    frames_from_ends (suc n) payload offset
      (read_frame_ends payload offset inside (omega arith) fits)
    ∙ sym (
        frames_from_ends zero payload offset
          (read_frame_ends payload offset inside (omega arith) fits))
rounds_enough (suc n) (suc m) payload offset h fits inside a b =
    elim (Option-cases (read_frame payload offset)) [
      | inl e ↦
          frames_from_ends (suc n) payload offset e
          ∙ sym (frames_from_ends (suc m) payload offset e)
      | inr ((f, next), e) ↦
          let (more, still) = rw e at (read_frame_moves payload offset h fits inside) in
          frames_from_next n payload offset f next e
          ∙ ap (λ (t : List (List ℕ)). f ∷ t)
              (rounds_enough n m payload next h fits still (omega arith) (omega arith))
          ∙ sym (frames_from_next m payload offset f next e)
    ]

-- On any payload of bytes the loop ends: with any number of rounds from the payload's length on it
-- finds the same frames.
pub frames_from-multi_frames :
    (rounds : ℕ) (payload : List ℕ)
    → All IsByte payload
    → length payload < 2 ^ 63
    → length payload ≤ rounds
    → frames_from rounds payload 0 ≡ multi_frames payload
unfolding multi_frames
frames_from-multi_frames rounds payload h fits enough =
    rounds_enough rounds (length payload) payload 0 h fits (omega arith) (omega arith) (omega arith)
