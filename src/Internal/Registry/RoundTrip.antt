-- ===== src/Internal/Registry/RoundTrip.antt =====
-- `Serialize` and `Deserialize` of every class, against one another and on any input.
use steam_min_cpp.Prelude.{
  ℕ, ◌+◌, ◌^◌, ◌≤◌, ◌<◌, ◌≡◌, List, [], ◌++◌, length, length-append, arith, ap, ◌∙◌, ◌⊎◌, inl, inr,
  dec_le,
}
use steam_min_cpp.Prelude.Results.{ok, throws}
use steam_min_cpp.Stream.{reader_at, reader, writer}
use steam_min_cpp.Stream.Laws.{writer_with}
use steam_min_cpp.Internal.Registry.{ClassName, class_of}

module _ (c : ClassName) where
  open class_of c use {Body, IsWf, new, serialize, deserialize, size, laws}

  -- What `serialize` writes to a new stream are `size` bytes, the sum of the "Static size" comments.
  -- In front of other bytes, as long as there are fewer than 2 ^ 63 in all, they are read back by
  -- `deserialize` as the same fields, and the reader stands behind them. This holds for every class and
  -- all field values that are well-formed: a number is one of its type, and the vector `data` of
  -- MsgClientP2PIntroducerMessage has the 1450 bytes that its constructor gives it.
  pub deserialize-serialize :
      (m : Body) (rest : List ℕ)
      → IsWf m
      → size + length rest < 2 ^ 63
      → (bytes : List ℕ) × (serialize m writer ≡ ok (tt, writer_with bytes 0))
        × (length bytes ≡ size)
        × (deserialize (reader (bytes ++ rest)) ≡ ok (m, reader_at (bytes ++ rest) size))
  unfolding writer reader
  deserialize-serialize m rest h fits =
      (laws.encoding m, (laws.writes m).run [] 0, laws.size_lem m h, read_back)
    where
      short : length (laws.encoding m ++ rest) < 2 ^ 63
      short = omega (arith, length-append (laws.encoding m) rest, laws.size_lem m h)

      read_back :
          deserialize (reader_at (laws.encoding m ++ rest) 0)
          ≡ ok (m, reader_at (laws.encoding m ++ rest) size)
      read_back =
          (laws.parses m h).run [] rest short
          ∙ ap (λ (t : ℕ). ok (m, reader_at (laws.encoding m ++ rest) t))
              (omega (arith, laws.size_lem m h))

  -- On any input, from any position in it, `deserialize` returns a value and moves by exactly
  -- `size` bytes if so many are left, and throws "Stream underflow" if not.
  pub deserialize_takes_size :
      (input : List ℕ) (position : ℕ)
      → length input < 2 ^ 63
      → position ≤ length input
      → ((position + size ≤ length input)
          × ((m : Body) × (deserialize (reader_at input position)
                ≡ ok (m, reader_at input (position + size)))))
        ⊎ ((length input < position + size)
            × (deserialize (reader_at input position) ≡ throws "Stream underflow"))
  deserialize_takes_size input position fits inside =
      elim (dec_le (position + size) (length input)) [
        | yes h ↦ inl (h, laws.consumes.enough input position fits h)
        | no h ↦ inr (omega arith, laws.consumes.short input position fits inside (omega arith))
      ]

  -- A default-constructed value has its fields in range.
  pub new-IsWf : IsWf new
  new-IsWf = laws.new_is_wf
