-- ===== src/Stream.antt =====
-- include/steamclient/utilities/stream.hpp: a byte stream that is written to its own buffer, or
-- reads a vector that it does not own. A value of an integer type is its bit pattern, a number
-- below 2 ^ (8 * sizeof(T)), so signed and unsigned reads and writes of one size are the same.
pub mod Bytes
pub mod Laws
pub mod Arrays
use steam_min_cpp.Prelude.{
  ℕ, zero, suc, ◌+◌, ◌*◌, ◌/◌, ◌%◌, ◌^◌, bit_or, Bool, true, false, Option, none, some, List, [],
  ◌∷◌, ◌++◌, length, take, drop, get_or, ltb, if◌then◌else◌, String,
}
use steam_min_cpp.Prelude.Results.{Result, ok, throws, undefined}

-- `read_buffer` is `none` in write mode (`readBuffer == nullptr`).
pub record Stream : Type 0 where
  pub read_buffer : Option (List ℕ)
  pub buffer : List ℕ
  pub position : ℕ

-- The three constructors.
unfoldable pub writer : Stream
writer = record { read_buffer = none; buffer = []; position = 0 }

abbrev pub reader_at : List ℕ → ℕ → Stream
reader_at input offset = record { read_buffer = some input; buffer = []; position = offset }

unfoldable pub reader : List ℕ → Stream
reader input = reader_at input 0

unfoldable pub stream_length : Stream → ℕ
stream_length s = elim s.read_buffer [ none ↦ length s.buffer | some input ↦ length input ]

-- A step on a stream: a value and the stream after it, or an exception.
abbrev pub M : Type 0 → Type 0
M A = Stream → Result (A × Stream)

infixl 5 ◌>>=◌ ◌>>◌
unfoldable pub ◌>>=◌ : {A B : Type 0} → M A → (A → M B) → M B
◌>>=◌ m f s = elim (m s) [ ok (a, t) ↦ f a t | throws e ↦ throws e | undefined ↦ undefined ]

unfoldable pub ◌>>◌ : {B : Type 0} → M (Unit {0}) → M B → M B
unfolding ◌>>=◌
m >> k = m >>= λ _. k

unfoldable pub pure : {A : Type 0} → A → M A
pure a s = ok (a, s)

unfoldable pub throw : {A : Type 0} → String → M A
throw e s = throws e

-- `for (size_t i = 0; i < sizeof(T); ++i) buffer.push_back((value >> (8 * i)) & 0xFF)`, with the
-- rounds that are left in front. `& 0xFF` on a byte cast is `% 256`.
pub write_loop : ℕ → ℕ → ℕ → List ℕ → List ℕ
write_loop zero i value buffer = buffer
write_loop (suc left) i value buffer =
    write_loop left (i + 1) value (buffer ++ (value / 2 ^ (8 * i) % 256 ∷ []))

-- `template <typename T> void Write(T value)` at `sizeof(T) == size`.
unfoldable pub write : ℕ → ℕ → M (Unit {0})
unfolding write_loop
write size value s = elim s.read_buffer [
  | some input ↦ throws "Stream is in read mode"
  | none ↦ ok (tt, record s { buffer = write_loop size 0 value s.buffer })
]

-- `Write(const std::vector<byte>&)` and `Write(const byte*, size_t)`.
unfoldable pub write_bytes : List ℕ → M (Unit {0})
write_bytes bytes s = elim s.read_buffer [
  | some input ↦ throws "Stream is in read mode"
  | none ↦ ok (tt, record s { buffer = s.buffer ++ bytes })
]

-- `Write(const void*, size_t)`, which a `char*` takes, does not look at the mode.
unfoldable pub write_raw : List ℕ → M (Unit {0})
write_raw bytes s = ok (tt, record s { buffer = s.buffer ++ bytes })

-- `size_t` addition.
abbrev pub add_size : ℕ → ℕ → ℕ
add_size a b = (a + b) % 2 ^ 64

-- `value |= static_cast<T>((*readBuffer)[position + i]) << (8 * i)`; the bytes are those from
-- `position` on, and `i` counts up from 0.
pub read_loop : ℕ → ℕ → ℕ → List ℕ → ℕ
read_loop zero i value bytes = value
read_loop (suc left) i value bytes =
    read_loop left (i + 1) (bit_or value (get_or bytes i 0 * 2 ^ (8 * i))) bytes

-- The guard of the reading functions, and the position's step over `size` bytes.
pub take_input : {A : Type 0} → ℕ → (List ℕ → A) → M A
take_input size f s = elim s.read_buffer [
  | none ↦ throws "Stream is in write mode"
  | some input ↦
      if ltb (length input) (add_size s.position size)
      then throws "Stream underflow"
      else ok (f (drop s.position input), record s { position = add_size s.position size })
]

-- `template <typename T> T Read()` at `sizeof(T) == size`.
unfoldable pub read : ℕ → M ℕ
unfolding take_input read_loop
read size = take_input size (read_loop size 0 0)

-- `ReadBytes(size)`, and `Read(byte* out, size)`, whose result is what it copies to `out`.
unfoldable pub read_bytes : ℕ → M (List ℕ)
unfolding take_input
read_bytes size = take_input size (take size)

-- The loop of `ReadArray`.
pub read_items : ℕ → ℕ → M (List ℕ)
unfolding ◌>>=◌ pure
read_items size zero = pure []
read_items size (suc count) = do item ← read size; rest ← read_items size count; pure (item ∷ rest)

-- `ReadArray<T>(count)`: the bound of all the items first, and then each by `Read<T>`.
unfoldable pub read_array : ℕ → ℕ → M (List ℕ)
unfolding read_items
read_array size count s = elim s.read_buffer [
  | none ↦ throws "Stream is in write mode"
  | some input ↦
      if ltb (length input) (add_size s.position (size * count % 2 ^ 64))
      then throws "Stream underflow"
      else read_items size count s
]
