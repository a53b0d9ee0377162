-- ===== src/Message/Payload.antt =====
-- `MsgBase` of include/steamclient/types/msgbase.hpp: a message's payload with its writing helpers,
-- which append to it, and its reading helpers, which move a position. `payload` holds bytes.
use native.Mathlib.Nat.{mod-eq_of_lt}
use steam_min_cpp.Prelude.{
  ℕ, ◌+◌, ◌-◌, ◌^◌, ◌<◌, ◌≡◌, refl, List, [], ◌∷◌, ◌++◌, All, length, take, drop, get_or, ltb, leb,
  ◌==◌, if◌then◌else◌, arith, length-append, append_assoc, drop-length_append, take-length_append,
  le→not_ltb, lt→ltb,
}
use steam_min_cpp.Prelude.Results.{Result, ok, throws, undefined}
use steam_min_cpp.Stream.{add_size}
use steam_min_cpp.Stream.Bytes.{le_bytes, le_value, length-le_bytes, le_value-le_bytes}

pub record MsgBase : Type 0 where
  pub payload : List ℕ
  pub read_pos : ℕ

unfoldable pub new : MsgBase
new = record { payload = []; read_pos = 0 }

unfoldable pub write_byte : ℕ → MsgBase → MsgBase
write_byte b m = record m { payload = m.payload ++ (b ∷ []) }

unfoldable pub write_bytes : List ℕ → MsgBase → MsgBase
write_bytes bytes m = record m { payload = m.payload ++ bytes }

-- The object representation of a value of `size` bytes, on a little-endian host.
unfoldable pub write_value : ℕ → ℕ → MsgBase → MsgBase
write_value size value m = record m { payload = m.payload ++ le_bytes size value }

unfoldable pub write_string : List ℕ → MsgBase → MsgBase
write_string str m = record m { payload = m.payload ++ str }

unfoldable pub write_null_term_string : List ℕ → MsgBase → MsgBase
unfolding write_string
write_null_term_string str m =
    let written = write_string str m in record written { payload = written.payload ++ (0 ∷ []) }

unfoldable pub read_byte : MsgBase → Result (ℕ × MsgBase)
read_byte m =
    if leb (length m.payload) m.read_pos
    then throws "Read past end"
    else ok (get_or m.payload m.read_pos 0, record m { read_pos = m.read_pos + 1 })

-- The bound is a `size_t` sum: a position that `seek` set near 2 ^ 64 passes it and reads out of
-- bounds.
unfoldable pub read_value : ℕ → MsgBase → Result (ℕ × MsgBase)
read_value size m =
    if ltb (length m.payload) (add_size m.read_pos size)
    then throws "Read past end"
    else (if ltb (length m.payload) m.read_pos
        then undefined
        else ok (
          le_value (take size (drop m.read_pos m.payload)),
          record m { read_pos = add_size m.read_pos size },
        ))

-- `while (readPos < payload.size() && payload[readPos] != 0) readPos++` over the bytes from
-- `readPos` on.
unfoldable pub find_null : List ℕ → ℕ → ℕ
find_null [] pos = pos
find_null (b ∷ bytes) pos =
    let further = find_null bytes (pos + 1) in if b == 0 then pos else further

-- From a position behind the end, which `seek` can set, the string's iterators are out of range.
unfoldable pub read_null_term_string : MsgBase → Result (List ℕ × MsgBase)
unfolding find_null
read_null_term_string m =
    if ltb (length m.payload) m.read_pos
    then undefined
    else (let rest = drop m.read_pos m.payload in
        let end = find_null rest m.read_pos in
        ok (
          take (end - m.read_pos) rest,
          record m { read_pos = if ltb end (length m.payload) then end + 1 else end },
        ))

unfoldable pub seek : ℕ → MsgBase → MsgBase
seek pos m = record m { read_pos = pos }

unfoldable pub tell : MsgBase → ℕ
tell m = m.read_pos

abbrev pub NotNull : ℕ → Type 0
NotNull b = 0 < b

find_null-NotNull :
    (str rest : List ℕ) (pos : ℕ)
    → All NotNull str
    → find_null (str ++ (0 ∷ rest)) pos ≡ pos + length str
unfolding find_null
find_null-NotNull [] rest pos h = omega arith
find_null-NotNull (b ∷ str) rest pos (hb, h) =
    ground (arith, find_null-NotNull str rest (pos + 1) h)

add_sub : (a b : ℕ) → a + b - a ≡ b
add_sub a b = omega arith

module _ (pre str rest : List ℕ) (h : All NotNull str) where
  abbrev whole : List ℕ
  whole = pre ++ (str ++ (0 ∷ rest))

  whole_size : length whole ≡ length pre + length str + 1 + length rest
  whole_size = omega (arith, length-append pre (str ++ (0 ∷ rest)), length-append str (0 ∷ rest))

  written_string :
      read_null_term_string (record { payload = whole; read_pos = length pre })
      ≡ ok (str, record { payload = whole; read_pos = length pre + length str + 1 })
  unfolding read_null_term_string
  written_string =
      rw
        (
          le→not_ltb (length pre) (length whole) (omega (arith, whole_size)),
          drop-length_append pre (str ++ (0 ∷ rest)),
          find_null-NotNull str rest (length pre) h,
          lt→ltb (length pre + length str) (length whole) (omega (arith, whole_size)),
          add_sub (length pre) (length str),
          take-length_append str (0 ∷ rest),
        )
        refl

-- A string without null bytes that was written after any payload is read back from its position,
-- whatever was written after it, and the position moves behind its null.
read_null_term_string-write_null_term_string :
    (m : MsgBase) (str later : List ℕ)
    → All NotNull str
    → let after = write_bytes later (write_null_term_string str m) in
      read_null_term_string (seek (length m.payload) after)
      ≡ ok (str, seek (length m.payload + length str + 1) after)
unfolding write_null_term_string write_bytes seek
read_null_term_string-write_null_term_string m str later h =
    rw (append_assoc (m.payload ++ str) (0 ∷ []) later, append_assoc m.payload str (0 ∷ later))
      (written_string m.payload str later h)

-- A value of its size that was written after any payload is read back from its position, whatever
-- was written after it, and the position moves behind it.
pub read_value-write_value :
    (m : MsgBase) (size value : ℕ) (later : List ℕ)
    → value < 256 ^ size
    → length m.payload + size + length later < 2 ^ 63
    → let after = write_bytes later (write_value size value m) in
      read_value size (seek (length m.payload) after)
      ≡ ok (value, seek (length m.payload + size) after)
unfolding write_value write_bytes seek read_value
read_value-write_value m size value later h fits =
    rw
      (
        append_assoc m.payload (le_bytes size value) later,
        mod-eq_of_lt {n = length m.payload + size} {m = 2 ^ 64} (omega arith),
        le→not_ltb (length m.payload + size) (length whole_payload) (omega (arith, total)),
        le→not_ltb (length m.payload) (length whole_payload) (omega (arith, total)),
        drop-length_append m.payload (le_bytes size value ++ later),
        taken,
        le_value-le_bytes size value h,
      )
      refl
  where
    whole_payload : List ℕ
    whole_payload = m.payload ++ (le_bytes size value ++ later)

    total : length whole_payload ≡ length m.payload + size + length later
    total = omega (
      arith,
      length-append m.payload (le_bytes size value ++ later),
      length-append (le_bytes size value) later,
      length-le_bytes size value,
    )

    taken : take size (le_bytes size value ++ later) ≡ le_bytes size value
    taken = rw length-le_bytes at (take-length_append (le_bytes size value) later)
