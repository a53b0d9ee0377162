-- ===== src/Tcp/Framing.antt =====
-- Frames on the wire: what `async_send` builds, and what the header and body handlers read.
use steam_min_cpp.Prelude.{
  ℕ, zero, suc, ◌+◌, ◌^◌, ◌<◌, ◌≡◌, ◌↔◌, refl, true, false, List, [], ◌∷◌, ◌++◌, length, take, drop,
  leb, if◌then◌else◌, arith, length-append, length-drop,
}
use steam_min_cpp.Stream.Bytes.{le_bytes, le_value}
use steam_min_cpp.Tcp.{
  TcpConnection, header_op, body_op, frame, magic, equal, validate_magic, parse_message_length,
  on_header, on_body,
}

equal_sound : (xs ys : List ℕ) → length xs ≡ length ys → equal xs ys ≡ true → ys ≡ xs
unfolding equal
equal_sound [] [] h e = refl
equal_sound [] (y ∷ ys) h e = absurd (omega arith)
equal_sound (x ∷ xs) [] h e = cc
equal_sound (x ∷ xs) (y ∷ ys) h e = ground (arith, equal_sound xs ys)

-- The first eight bytes of a frame are a valid header that tells the body's length, and the rest is
-- the body, if the body is shorter than 2 ^ 32 bytes.
pub frame-header :
    (bytes rest : List ℕ)
    → length bytes < 2 ^ 32
    → (validate_magic (take 8 (frame bytes ++ rest)) ≡ true)
      × (parse_message_length (take 8 (frame bytes ++ rest)) ≡ length bytes)
      × (drop 8 (frame bytes ++ rest) ≡ bytes ++ rest)
      × (length (frame bytes ++ rest) ≡ 8 + length bytes + length rest)
unfolding frame validate_magic parse_message_length le_bytes le_value
frame-header bytes rest h = (refl, omega arith, refl, omega (arith, length-append bytes rest))

-- `validate_magic` accepts an eight-byte header exactly when its last four bytes are "VT01".
pub validate_magic_iff :
    (buffer : List ℕ) → length buffer ≡ 8 → (validate_magic buffer ≡ true) ↔ (drop 4 buffer ≡ magic)
unfolding validate_magic
validate_magic_iff buffer h = (
  equal_sound magic (drop 4 buffer) (omega (arith, length-drop 4 buffer)),
  λ e. rw e (unfold equal in refl),
)

-- A peer whose bytes arrive in order: `async_read` completes when its buffer is full, and takes as
-- many bytes as the buffer holds. `n` bounds the number of completions.
unfoldable pub receive : ℕ → List ℕ → TcpConnection → TcpConnection
receive zero bytes c = c
receive (suc n) bytes c = elim c.pending [
  | header_op ∷ rest ↦
      if leb 8 (length bytes)
      then receive n (drop 8 bytes) (on_header false (take 8 bytes) (record c { pending = rest }))
      else c
  | body_op ∷ rest ↦
      if leb c.body_length (length bytes)
      then receive n (drop c.body_length bytes)
          (on_body false (take c.body_length bytes) (record c { pending = rest }))
      else c
  | _ ↦ c
]

-- The bytes of frames one behind the other.
abbrev pub wire : List (List ℕ) → List ℕ
wire [] = []
wire (f ∷ fs) = f ++ wire fs

abbrev pub IsSendable : List ℕ → Type 0
IsSendable bytes = length bytes < 2 ^ 32
