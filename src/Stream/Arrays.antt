-- ===== src/Stream/Arrays.antt =====
-- `ReadArray` of bytes: one bound for all, and the same bytes as one read.
use native.Mathlib.Nat.{mod-eq_of_lt}
use steam_min_cpp.Prelude.{
  ℕ, zero, suc, ◌+◌, ◌^◌, ◌<◌, ◌≡◌, refl, ap, sym, List, [], ◌∷◌, ◌++◌, length, All, arith,
  length-append, append-nil,
}
use steam_min_cpp.Prelude.Results.{ok}
use steam_min_cpp.Stream.Bytes.{IsByte, le_bytes}
use steam_min_cpp.Stream.Laws.{
  Writes, writer_with, Parses, Parses-read, Parses-bind, Parses-last, Consumes, Consumes-read,
  Consumes-bind, Consumes-last,
}
use steam_min_cpp.Stream.{reader_at, pure, read, read_items, read_array}

pub Writes-pure : Writes (pure tt) []
unfolding pure
Writes-pure = record {
  run = λ buffer position.
      ap (λ (t : List ℕ). ok (tt, writer_with t position)) (sym (append-nil buffer));
}

pub Parses-pure : {A : Type 0} (v : A) → Parses (pure v) v []
unfolding pure
Parses-pure v = record {
  run = λ pre post fits. ap (λ (t : ℕ). ok (v, reader_at (pre ++ post) t)) (omega arith);
}

pub Consumes-pure : {A : Type 0} (v : A) → Consumes (pure v) 0
unfolding pure
Consumes-pure v = record {
  enough =
      λ input position fits inside. (v, ap (λ (t : ℕ). ok (v, reader_at input t)) (omega arith));
  short = λ input position fits inside outside. absurd (omega arith);
}

one_byte : (b : ℕ) → b < 256 → le_bytes 1 b ≡ b ∷ []
unfolding le_bytes
one_byte b h = rw (mod-eq_of_lt h) refl

Parses-read_byte : (b : ℕ) → b < 256 → Parses (read 1) b (b ∷ [])
Parses-read_byte b h = rw (one_byte b h) at (Parses-read 1 b h)

Parses-read_items :
    (bytes : List ℕ) → All IsByte bytes → Parses (read_items 1 (length bytes)) bytes bytes
unfolding read_items
Parses-read_items [] h = Parses-pure []
Parses-read_items (b ∷ bs) (b_IsByte, h) =
    Parses-bind _ (Parses-read_byte b b_IsByte)
      (Parses-last (λ rest. b ∷ rest) (Parses-read_items bs h))

Consumes-read_items : (count : ℕ) → Consumes (read_items 1 count) count
unfolding read_items
Consumes-read_items zero = Consumes-pure []
Consumes-read_items (suc count) = rw (rounds count) at (
    Consumes-bind _ (Consumes-read 1 (omega arith))
      λ item. Consumes-last (λ rest. item ∷ rest) (Consumes-read_items count))
  where
    rounds : (count : ℕ) → 1 + count ≡ suc count
    rounds count = omega arith

-- `ReadArray` of bytes returns the bytes that stand there.
pub Parses-read_array :
    (bytes : List ℕ) → All IsByte bytes → Parses (read_array 1 (length bytes)) bytes bytes
unfolding read_array
Parses-read_array bytes h = record {
  run = λ pre post fits. ground (
    arith,
    length-append pre (bytes ++ post),
    length-append bytes post,
    (Parses-read_items bytes h).run pre post fits,
  );
}

-- Its own bound agrees with the bounds of the single reads.
pub Consumes-read_array : (count : ℕ) → count < 2 ^ 63 → Consumes (read_array 1 count) count
unfolding read_array
Consumes-read_array count bounded = record {
  enough = λ input position fits inside.
      let (v, e) = (Consumes-read_items count).enough input position fits inside in
      (v, ground arith);
  short = λ input position fits inside outside. ground arith;
}

-- At the width of the one array among the messages.
pub Parses-read_1450 :
    (bytes : List ℕ)
    → length bytes ≡ 1450
    → All IsByte bytes
    → Parses (read_array 1 1450) bytes bytes
Parses-read_1450 bytes e h = rw e at (Parses-read_array bytes h)
