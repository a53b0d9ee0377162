-- ===== src/Multi/Laws.antt =====
-- The loop over the frames of src/routing/events/handlers/multi_handler.cpp: what it finds.
use native.Mathlib.Nat.{mod-eq_of_lt}
use steam_min_cpp.Prelude.{
  ℕ, zero, suc, ◌+◌, ◌^◌, ◌≤◌, ◌<◌, ◌≡◌, refl, sym, ap, ◌∙◌, none, some, List, [], ◌∷◌, ◌++◌, All,
  length, take, drop, arith, length-append, append_assoc, drop-append, take-append, le→not_ltb,
  lt→ltb,
}
use steam_min_cpp.Stream.Bytes.{le_bytes, le_value, length-le_bytes, le_value-le_bytes}
use steam_min_cpp.Multi.{read_frame, frames_from, multi_frames}

-- The bytes of frames one behind the other, each behind its length.
abbrev pub packed : List (List ℕ) → List ℕ
packed [] = []
packed (f ∷ fs) = le_bytes 4 (length f) ++ (f ++ packed fs)

abbrev pub IsSubFrame : List ℕ → Type 0
IsSubFrame f = length f < 2 ^ 32

-- What is read where the bytes of a length and a frame of that length are left.
read_frame_lem :
    (payload : List ℕ) (offset n : ℕ)
    → offset + 4 + n ≤ length payload
    → length payload < 2 ^ 63
    → le_value (take 4 (drop offset payload)) ≡ n
    → read_frame payload offset ≡ some (take n (drop (offset + 4) payload), offset + 4 + n)
unfolding read_frame
read_frame_lem payload offset n h fits e =
    rw
      (
        mod-eq_of_lt {n = offset + 4} {m = 2 ^ 64} (omega arith),
        le→not_ltb (offset + 4) (length payload) (omega arith),
        e,
        mod-eq_of_lt {n = offset + 4 + n} {m = 2 ^ 64} (omega arith),
        le→not_ltb (offset + 4 + n) (length payload) h,
      )
      refl

module _ (pre f rest : List ℕ) (short : length f < 2 ^ 32) where
  abbrev whole : List ℕ
  whole = pre ++ (le_bytes 4 (length f) ++ (f ++ rest))

  length-whole : length whole ≡ length pre + 4 + length f + length rest
  length-whole = omega (
    arith,
    length-append pre (le_bytes 4 (length f) ++ (f ++ rest)),
    length-append (le_bytes 4 (length f)) (f ++ rest),
    length-append f rest,
    length-le_bytes 4 (length f),
  )

  length_there : le_value (take 4 (drop (length pre) whole)) ≡ length f
  length_there =
      ap (λ (t : List ℕ). le_value (take 4 t)) (drop-append (length pre) pre _ refl)
      ∙ ap le_value
          (take-append 4 (le_bytes 4 (length f)) (f ++ rest) (length-le_bytes 4 (length f)))
      ∙ le_value-le_bytes 4 (length f) short

  front_size : length (pre ++ le_bytes 4 (length f)) ≡ length pre + 4
  front_size =
      omega (arith, length-append pre (le_bytes 4 (length f)), length-le_bytes 4 (length f))

  frame_there : take (length f) (drop (length pre + 4) whole) ≡ f
  frame_there =
      ap (λ (t : List ℕ). take (length f) (drop (length pre + 4) t))
        (sym (append_assoc pre (le_bytes 4 (length f)) (f ++ rest)))
      ∙ ap (λ (t : List ℕ). take (length f) t)
          (drop-append (length pre + 4) (pre ++ le_bytes 4 (length f)) (f ++ rest) front_size)
      ∙ take-append (length f) f rest refl

  -- A frame at an offset is read, and the offset moves behind it.
  read_frame-whole :
      length whole < 2 ^ 63 → read_frame whole (length pre) ≡ some (f, length pre + 4 + length f)
  read_frame-whole fits =
      read_frame_lem whole (length pre) (length f) (omega (arith, length-whole)) fits length_there
      ∙ ap (λ (t : List ℕ). some (t, length pre + 4 + length f)) frame_there

-- Fewer than four bytes are no length.
pub read_frame_ends :
    (payload : List ℕ) (offset : ℕ)
    → offset ≤ length payload
    → length payload < offset + 4
    → length payload < 2 ^ 63
    → read_frame payload offset ≡ none
unfolding read_frame
read_frame_ends payload offset inside h fits =
    rw
      (
        mod-eq_of_lt {n = offset + 4} {m = 2 ^ 64} (omega arith),
        lt→ltb (length payload) (offset + 4) h,
      )
      refl

pub frames_from_ends :
    (n : ℕ) (payload : List ℕ) (offset : ℕ)
    → read_frame payload offset ≡ none
    → frames_from n payload offset ≡ []
unfolding frames_from
frames_from_ends zero payload offset e = refl
frames_from_ends (suc n) payload offset e = rw (e, frames_from) refl

pub frames_from_next :
    (n : ℕ) (payload : List ℕ) (offset : ℕ) (f : List ℕ) (next : ℕ)
    → read_frame payload offset ≡ some (f, next)
    → frames_from (suc n) payload offset ≡ f ∷ frames_from n payload next
unfolding frames_from
frames_from_next n payload offset f next e = rw (e, frames_from) refl

frames_from-packed :
    (fs : List (List ℕ)) (n : ℕ) (pre tail : List ℕ)
    → All IsSubFrame fs
    → length tail < 4
    → length fs ≤ n
    → length (pre ++ (packed fs ++ tail)) < 2 ^ 63
    → frames_from n (pre ++ (packed fs ++ tail)) (length pre) ≡ fs
frames_from-packed [] n pre tail h short count fits =
    frames_from_ends n (pre ++ tail) (length pre) (
      read_frame_ends (pre ++ tail) (length pre) (omega (arith, length-append pre tail))
        (omega (arith, length-append pre tail)) fits)
frames_from-packed (f ∷ fs) zero pre tail h short count fits = absurd (omega arith)
frames_from-packed (f ∷ fs) (suc n) pre tail (h, hs) short count fits = rw regroup (
    frames_from_next n (whole pre f rest h) (length pre) f (length pre + 4 + length f)
      (read_frame-whole pre f rest h whole_fits)
    ∙ ap (λ (t : List (List ℕ)). f ∷ t)
        (moved
          ∙ frames_from-packed fs n done tail hs short (omega arith) (rw behind at whole_fits)))
  where
    rest : List ℕ
    rest = packed fs ++ tail

    done : List ℕ
    done = pre ++ (le_bytes 4 (length f) ++ f)

    regroup :
        pre ++ ((le_bytes 4 (length f) ++ (f ++ packed fs)) ++ tail)
        ≡ pre ++ (le_bytes 4 (length f) ++ (f ++ rest))
    regroup =
        ap (λ (t : List ℕ). pre ++ t)
          (append_assoc (le_bytes 4 (length f)) (f ++ packed fs) tail
            ∙ ap (λ (t : List ℕ). le_bytes 4 (length f) ++ t) (append_assoc f (packed fs) tail))

    whole_fits : length (whole pre f rest h) < 2 ^ 63
    whole_fits = rw regroup at fits

    behind : whole pre f rest h ≡ done ++ rest
    behind =
        ap (λ (t : List ℕ). pre ++ t) (sym (append_assoc (le_bytes 4 (length f)) f rest))
        ∙ sym (append_assoc pre (le_bytes 4 (length f) ++ f) rest)

    length-done : length pre + 4 + length f ≡ length done
    length-done = omega (
      arith,
      length-append pre (le_bytes 4 (length f) ++ f),
      length-append (le_bytes 4 (length f)) f,
      length-le_bytes 4 (length f),
    )

    moved :
        frames_from n (whole pre f rest h) (length pre + 4 + length f)
        ≡ frames_from n (done ++ rest) (length done)
    moved =
        ap (λ (t : List ℕ). frames_from n t (length pre + 4 + length f)) behind
        ∙ ap (λ (t : ℕ). frames_from n (done ++ rest) t) length-done

count_packed : (fs : List (List ℕ)) → length fs ≤ length (packed fs)
count_packed [] = omega arith
count_packed (f ∷ fs) = omega (
  arith,
  count_packed fs,
  length-append (le_bytes 4 (length f)) (f ++ packed fs),
  length-append f (packed fs),
  length-le_bytes 4 (length f),
)

-- From frames shorter than 2 ^ 32 bytes, each behind its length, and fewer than four more bytes, the
-- loop finds these frames in their order, and nothing else.
pub multi_frames-packed :
    (fs : List (List ℕ)) (tail : List ℕ)
    → All IsSubFrame fs
    → length tail < 4
    → length (packed fs ++ tail) < 2 ^ 63
    → multi_frames (packed fs ++ tail) ≡ fs
unfolding multi_frames
multi_frames-packed fs tail h short fits =
    frames_from-packed fs (length (packed fs ++ tail)) [] tail h short
      (omega (arith, count_packed fs, length-append (packed fs) tail)) fits
