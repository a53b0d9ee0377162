-- ===== src/Stream/Laws.antt =====
-- How steps on a stream compose: what a step writes, what it reads back, and how much it consumes.
use native.Mathlib.Nat.{div-one}
use steam_min_cpp.Prelude.{
  String, ℕ, ◌+◌, ◌^◌, ◌≤◌, ◌<◌, ◌≡◌, refl, ap, ◌∙◌, List, [], ◌++◌, none, length, take, drop,
  append_assoc, arith, length-append, dec_le, drop-length_append, take-length_append,
}
use steam_min_cpp.Prelude.Results.{ok, throws}
use steam_min_cpp.Stream.Bytes.{
  le_bytes, length-le_bytes, le_bytes-IsByte, le_value-le_bytes, write_loop-le_bytes,
  read_loop-le_value,
}
use steam_min_cpp.Stream.{
  Stream, M, reader_at, ◌>>=◌, ◌>>◌, pure, write, write_bytes, write_raw, take_input, read,
  read_bytes, read_loop,
}

-- A bind whose first step is known.
pub bind_ok :
    {A B : Type 0} (m : M A) (k : A → M B) (s : Stream) {v : A} {t : Stream}
    → m s ≡ ok (v, t)
    → (m >>= k) s ≡ k v t
unfolding ◌>>=◌
bind_ok m k s e = rw (e, ◌>>=◌) refl

pub bind_throws :
    {A B : Type 0} (m : M A) (k : A → M B) (s : Stream) {message : String}
    → m s ≡ throws message
    → (m >>= k) s ≡ throws message
unfolding ◌>>=◌
bind_throws m k s e = rw (e, ◌>>=◌) refl

-- A stream in write mode.
abbrev pub writer_with : List ℕ → ℕ → Stream
writer_with buffer position = record { read_buffer = none; buffer = buffer; position = position }

-- In write mode the step appends these bytes.
pub record Writes (m : M (Unit {0})) (bytes : List ℕ) : Type 0 where
  pub run :
      (buffer : List ℕ) (position : ℕ)
      → m (writer_with buffer position) ≡ ok (tt, writer_with (buffer ++ bytes) position)

pub Writes-write : (size v : ℕ) → Writes (write size v) (le_bytes size v)
unfolding write
Writes-write size v = record {
  run = λ buffer position. rw (write_loop-le_bytes size 0 v buffer, div-one) refl;
}

pub Writes-write_bytes : (bytes : List ℕ) → Writes (write_bytes bytes) bytes
unfolding write_bytes
Writes-write_bytes bytes = record { run = λ buffer position. refl }

pub Writes-write_raw : (bytes : List ℕ) → Writes (write_raw bytes) bytes
unfolding write_raw
Writes-write_raw bytes = record { run = λ buffer position. refl }

pub Writes-then :
    {m k : M (Unit {0})} {bs cs : List ℕ} → Writes m bs → Writes k cs → Writes (m >> k) (bs ++ cs)
unfolding ◌>>◌ ◌>>=◌
Writes-then {bs = bs} p q = record {
  run = λ buffer position.
      rw (p.run buffer position, ◌>>=◌)
        (q.run (buffer ++ bs) position
          ∙ ap (λ t. ok (tt, writer_with t position)) (append_assoc buffer bs _));
}

-- The same of a step that returns a value.
pub record Gives {A : Type 0} (m : M A) (v : A) (bytes : List ℕ) : Type 0 where
  pub run :
      (buffer : List ℕ) (position : ℕ)
      → m (writer_with buffer position) ≡ ok (v, writer_with (buffer ++ bytes) position)

pub Gives-then :
    {A : Type 0} {m : M (Unit {0})} {k : M A} {v : A} {bs cs : List ℕ}
    → Writes m bs
    → Gives k v cs
    → Gives (m >> k) v (bs ++ cs)
unfolding ◌>>◌ ◌>>=◌
Gives-then {v = v} {bs = bs} p q = record {
  run = λ buffer position.
      rw (p.run buffer position, ◌>>=◌)
        (q.run (buffer ++ bs) position
          ∙ ap (λ t. ok (v, writer_with t position)) (append_assoc buffer bs _));
}

pub Gives-last :
    {A : Type 0} {m : M (Unit {0})} {bs : List ℕ} (v : A) → Writes m bs → Gives (m >> pure v) v bs
unfolding ◌>>◌ ◌>>=◌ pure
Gives-last v p = record { run = λ buffer position. rw (p.run buffer position, ◌>>=◌) refl }

-- In front of any bytes, from the end of any bytes on, the step reads `bytes` as the value `v`.
pub record Parses {A : Type 0} (m : M A) (v : A) (bytes : List ℕ) : Type 0 where
  pub run :
      (pre post : List ℕ)
      → length (pre ++ (bytes ++ post)) < 2 ^ 63
      → m (reader_at (pre ++ (bytes ++ post)) (length pre))
        ≡ ok (v, reader_at (pre ++ (bytes ++ post)) (length pre + length bytes))

abbrev parsed_at : List ℕ → List ℕ → List ℕ → Stream
parsed_at pre bytes post = reader_at (pre ++ (bytes ++ post)) (length pre + length bytes)

pub Parses-take_input :
    {A : Type 0} (f : List ℕ → A) (bytes : List ℕ) (v : A)
    → ((post : List ℕ) → f (bytes ++ post) ≡ v)
    → Parses (take_input (length bytes) f) v bytes
unfolding take_input
Parses-take_input f bytes v h = record {
  run = λ pre post fits. ground (
    arith,
    length-append pre (bytes ++ post),
    length-append bytes post,
    drop-length_append pre (bytes ++ post),
    h post,
  );
}

pub Parses-read : (size v : ℕ) → v < 256 ^ size → Parses (read size) v (le_bytes size v)
unfolding read
Parses-read size v h = rw (length-le_bytes size v) at (
    Parses-take_input (read_loop (length (le_bytes size v)) 0 0) (le_bytes size v) v λ post.
      read_loop-le_value (le_bytes size v) 0 [] post (le_bytes-IsByte size v) (omega arith)
      ∙ omega (arith, le_value-le_bytes size v h))

pub Parses-read_bytes : (bytes : List ℕ) → Parses (read_bytes (length bytes)) bytes bytes
unfolding read_bytes
Parses-read_bytes bytes =
    Parses-take_input (take (length bytes)) bytes bytes (λ post. take-length_append bytes post)

-- The second step starts where the first one ended.
parsed_behind :
    {B : Type 0} {k : M B} {w : B} (pre bs cs post : List ℕ)
    → Parses k w cs
    → length (pre ++ ((bs ++ cs) ++ post)) < 2 ^ 63
    → k (reader_at (pre ++ ((bs ++ cs) ++ post)) (length pre + length bs))
      ≡ ok (w, parsed_at pre (bs ++ cs) post)
parsed_behind pre bs cs post q fits =
    rw (regroup, length-append pre bs, ← total) at (q.run (pre ++ bs) post (rw regroup fits))
  where
    regroup : (pre ++ bs) ++ (cs ++ post) ≡ pre ++ ((bs ++ cs) ++ post)
    regroup = rw (append_assoc bs cs post, append_assoc pre bs (cs ++ post)) refl

    total : length pre + length (bs ++ cs) ≡ length pre + length bs + length cs
    total = omega (arith, length-append bs cs)

pub Parses-bind :
    {A B : Type 0} {m : M A} (k : A → M B) {v : A} {w : B} {bs cs : List ℕ}
    → Parses m v bs
    → Parses (k v) w cs
    → Parses (m >>= k) w (bs ++ cs)
unfolding ◌>>=◌
Parses-bind k {bs = bs} {cs = cs} p q = record {
  run = λ pre post fits.
      rw
        (
          rw (← append_assoc bs cs post) at
              (p.run pre (cs ++ post) (rw (append_assoc bs cs post) at fits)),
          ◌>>=◌,
        )
        (parsed_behind pre bs cs post q fits);
}

-- The last read of a chain.
pub Parses-last :
    {A B : Type 0} {m : M A} (f : A → B) {v : A} {bs : List ℕ}
    → Parses m v bs
    → Parses (m >>= λ a. pure (f a)) (f v) bs
unfolding pure ◌>>=◌
Parses-last f p = record { run = λ pre post fits. rw (p.run pre post fits, ◌>>=◌) refl }

-- On any input the step takes exactly `size` bytes, or throws when fewer are left.
pub record Consumes {A : Type 0} (m : M A) (size : ℕ) : Type 0 where
  pub enough :
      (input : List ℕ) (position : ℕ)
      → length input < 2 ^ 63
      → position + size ≤ length input
      → (v : A) × (m (reader_at input position) ≡ ok (v, reader_at input (position + size)))
  pub short :
      (input : List ℕ) (position : ℕ)
      → length input < 2 ^ 63
      → position ≤ length input
      → length input < position + size
      → m (reader_at input position) ≡ throws "Stream underflow"

pub Consumes-take_input :
    {A : Type 0} (size : ℕ) (f : List ℕ → A) → size < 2 ^ 63 → Consumes (take_input size f) size
unfolding take_input
Consumes-take_input size f bounded = record {
  enough = λ input position fits inside. (f (drop position input), ground arith);
  short = λ input position fits inside outside. ground arith;
}

pub Consumes-read : (size : ℕ) → size < 2 ^ 63 → Consumes (read size) size
unfolding read
Consumes-read size = Consumes-take_input size (read_loop size 0 0)

pub Consumes-read_bytes : (size : ℕ) → size < 2 ^ 63 → Consumes (read_bytes size) size
unfolding read_bytes
Consumes-read_bytes size = Consumes-take_input size (take size)

pub Consumes-bind :
    {A B : Type 0} {m : M A} (k : A → M B) {a b : ℕ}
    → Consumes m a
    → ((v : A) → Consumes (k v) b)
    → Consumes (m >>= k) (a + b)
unfolding ◌>>=◌
Consumes-bind k {a = a} {b = b} p q = record {
  enough = λ input position fits inside.
      let (v, e) = p.enough input position fits (omega arith) in
      let (w, e') = (q v).enough input (position + a) fits (omega arith) in
      (w, rw (e, ◌>>=◌) (e' ∙ ap (λ (t : ℕ). ok (w, reader_at input t)) (omega arith)));
  short = λ input position fits inside outside. elim (dec_le (position + a) (length input)) [
    | yes h ↦
        let (v, e) = p.enough input position fits h in
        rw (e, ◌>>=◌) ((q v).short input (position + a) fits h (omega arith))
    | no h ↦ rw (p.short input position fits inside (omega arith), ◌>>=◌) refl
  ];
}

pub Consumes-last :
    {A B : Type 0} {m : M A} (f : A → B) {a : ℕ} → Consumes m a → Consumes (m >>= λ v. pure (f v)) a
unfolding pure ◌>>=◌
Consumes-last f p = record {
  enough = λ input position fits inside.
      let (v, e) = p.enough input position fits inside in (f v, rw (e, ◌>>=◌) refl);
  short = λ input position fits inside outside.
      rw (p.short input position fits inside outside, ◌>>=◌) refl;
}
