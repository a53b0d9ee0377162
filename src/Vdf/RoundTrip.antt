-- ===== src/Vdf/RoundTrip.antt =====
-- Objects in their binary form, as src/utils/vdf/vdf_bin.cpp parses them.
use steam_min_cpp.Prelude.{
  ℕ, zero, suc, ◌^◌, ◌≤◌, ◌<◌, ◌≡◌, refl, ap, ◌∙◌, Bool, true, false, some, List, [], ◌∷◌, ◌++◌,
  All, length, ◌==◌, String, arith, length-append, take-append, drop-append, le→not_ltb,
}
use steam_min_cpp.Prelude.Results.{ok}
use steam_min_cpp.Stream.Bytes.{le_bytes, length-le_bytes, le_value-le_bytes}
use steam_min_cpp.Message.Payload.{NotNull}
use steam_min_cpp.Vdf.{
  Object, empty, entry, text, int32, uint64, float32, object, assign, read_cstring, read_number,
  Parsed, proceed, proceed_parsed, parse_value, parse_object, parse_binary, bin_type,
}

-- The binary form of the entries, in front of other bytes: the type, the key and the value of each,
-- and 0x08 behind a nested object.
abbrev pub encode : Object → List ℕ → List ℕ
encode empty tail = tail
encode (entry key (object inner) rest) tail =
    0x00 ∷ key ++ (0 ∷ encode inner (0x08 ∷ encode rest tail))
encode (entry key (text s) rest) tail = 0x01 ∷ key ++ (0 ∷ s ++ (0 ∷ encode rest tail))
encode (entry key (int32 n) rest) tail = 0x02 ∷ key ++ (0 ∷ le_bytes 4 n ++ encode rest tail)
encode (entry key (float32 n) rest) tail = 0x03 ∷ key ++ (0 ∷ le_bytes 4 n ++ encode rest tail)
encode (entry key (uint64 n) rest) tail = 0x07 ∷ key ++ (0 ∷ le_bytes 8 n ++ encode rest tail)

-- Strings without nulls, and numbers of their sizes.
abbrev pub IsWf : Object → Type 0
IsWf empty = Unit {0}
IsWf (entry key (object inner) rest) = All NotNull key × IsWf inner × IsWf rest
IsWf (entry key (text s) rest) = All NotNull key × All NotNull s × IsWf rest
IsWf (entry key (int32 n) rest) = All NotNull key × (n < 2 ^ 32) × IsWf rest
IsWf (entry key (float32 n) rest) = All NotNull key × (n < 2 ^ 32) × IsWf rest
IsWf (entry key (uint64 n) rest) = All NotNull key × (n < 2 ^ 64) × IsWf rest

-- The assignments of all entries in their order to an object; a later one replaces an earlier one
-- with its key.
abbrev pub assign_all : Object → Object → Object
assign_all empty obj = obj
assign_all (entry key (object inner) rest) obj =
    assign_all rest (assign key (object (assign_all inner empty)) obj)
assign_all (entry key (text s) rest) obj = assign_all rest (assign key (text s) obj)
assign_all (entry key (int32 n) rest) obj = assign_all rest (assign key (int32 n) obj)
assign_all (entry key (float32 n) rest) obj = assign_all rest (assign key (float32 n) obj)
assign_all (entry key (uint64 n) rest) obj = assign_all rest (assign key (uint64 n) obj)

read_cstring_lem : (s rest : List ℕ) → All NotNull s → read_cstring (s ++ (0 ∷ rest)) ≡ ok (s, rest)
unfolding read_cstring
read_cstring_lem [] rest h = refl
read_cstring_lem (b ∷ s) rest (hb, h) = ground (arith, read_cstring_lem s rest h)

read_number_lem :
    (size n : ℕ) (message : String) (rest : List ℕ)
    → n < 256 ^ size
    → read_number size message (le_bytes size n ++ rest) ≡ ok (n, rest)
unfolding read_number
read_number_lem size n message rest h =
    rw
      (
        le→not_ltb size (length (le_bytes size n ++ rest))
            (omega (arith, length-append (le_bytes size n) rest, length-le_bytes size n)),
        take-append size (le_bytes size n) rest (length-le_bytes size n),
        drop-append size (le_bytes size n) rest (length-le_bytes size n),
        le_value-le_bytes size n h,
      )
      refl

skip : (b : Bool) (x y : Parsed) → b ≡ false → elim b [ true ↦ x | false ↦ y ] ≡ y
skip true x y e = cc
skip false x y e = refl

-- A round of the loop over a key.
round_lem :
    (n : ℕ) (obj : Object) (code : ℕ) (key rest : List ℕ)
    → (code == 0x08) ≡ false
    → All NotNull key
    → parse_object (suc n) obj (code ∷ key ++ (0 ∷ rest))
      ≡ parse_value (parse_object n) obj (bin_type code) key rest
unfolding parse_object proceed
round_lem n obj code key rest e h =
    skip (code == 0x08) (some (ok (obj, key ++ (0 ∷ rest))))
      (proceed (λ k left. parse_value (parse_object n) obj (bin_type code) k left)
        (read_cstring (key ++ (0 ∷ rest))))
      e
    ∙ ap (proceed (λ k left. parse_value (parse_object n) obj (bin_type code) k left))
        (read_cstring_lem key rest h)

encode_longer : (obj : Object) (tail : List ℕ) → length tail ≤ length (encode obj tail)
encode_longer empty tail = omega arith
encode_longer (entry key (object inner) rest) tail = omega (
  arith,
  length-append key (0 ∷ encode inner (0x08 ∷ encode rest tail)),
  encode_longer inner (0x08 ∷ encode rest tail),
  encode_longer rest tail,
)
encode_longer (entry key (text s) rest) tail = omega (
  arith,
  length-append key (0 ∷ s ++ (0 ∷ encode rest tail)),
  length-append s (0 ∷ encode rest tail),
  encode_longer rest tail,
)
encode_longer (entry key (int32 n) rest) tail = omega (
  arith,
  length-append key (0 ∷ le_bytes 4 n ++ encode rest tail),
  length-append (le_bytes 4 n) (encode rest tail),
  encode_longer rest tail,
)
encode_longer (entry key (float32 n) rest) tail = omega (
  arith,
  length-append key (0 ∷ le_bytes 4 n ++ encode rest tail),
  length-append (le_bytes 4 n) (encode rest tail),
  encode_longer rest tail,
)
encode_longer (entry key (uint64 n) rest) tail = omega (
  arith,
  length-append key (0 ∷ le_bytes 8 n ++ encode rest tail),
  length-append (le_bytes 8 n) (encode rest tail),
  encode_longer rest tail,
)

parse_object-encode :
    (obj built : Object) (n : ℕ) (tail : List ℕ)
    → IsWf obj
    → length (encode obj (0x08 ∷ tail)) < n
    → parse_object n built (encode obj (0x08 ∷ tail)) ≡ some (ok (assign_all obj built, tail))
unfolding parse_object parse_value proceed proceed_parsed bin_type
parse_object-encode obj built zero tail w h = absurd (omega arith)
parse_object-encode empty built (suc n) tail w h = refl
parse_object-encode (entry key (object inner) rest) built (suc n) tail (k, v, w) h =
    round_lem n built 0x00 key (encode inner (0x08 ∷ encode rest (0x08 ∷ tail))) refl k
    ∙ ap (proceed_parsed (λ o left. parse_object n (assign key (object o) built) left)) (
        parse_object-encode inner empty n (encode rest (0x08 ∷ tail)) v
          (omega (arith, length-append key (0 ∷ encode inner (0x08 ∷ encode rest (0x08 ∷ tail))))))
    ∙ parse_object-encode rest (assign key (object (assign_all inner empty)) built) n tail w (
        omega (
          arith,
          length-append key (0 ∷ encode inner (0x08 ∷ encode rest (0x08 ∷ tail))),
          encode_longer inner (0x08 ∷ encode rest (0x08 ∷ tail)),
        ))
parse_object-encode (entry key (text s) rest) built (suc n) tail (k, v, w) h =
    round_lem n built 0x01 key (s ++ (0 ∷ encode rest (0x08 ∷ tail))) refl k
    ∙ ap (proceed (λ t left. parse_object n (assign key (text t) built) left))
        (read_cstring_lem s (encode rest (0x08 ∷ tail)) v)
    ∙ parse_object-encode rest (assign key (text s) built) n tail w (
        omega (
          arith,
          length-append key (0 ∷ s ++ (0 ∷ encode rest (0x08 ∷ tail))),
          length-append s (0 ∷ encode rest (0x08 ∷ tail)),
        ))
parse_object-encode (entry key (int32 v) rest) built (suc n) tail (k, b, w) h =
    round_lem n built 0x02 key (le_bytes 4 v ++ encode rest (0x08 ∷ tail)) refl k
    ∙ ap (proceed (λ t left. parse_object n (assign key (int32 t) built) left))
        (read_number_lem 4 v _ (encode rest (0x08 ∷ tail)) b)
    ∙ parse_object-encode rest (assign key (int32 v) built) n tail w (
        omega (
          arith,
          length-append key (0 ∷ le_bytes 4 v ++ encode rest (0x08 ∷ tail)),
          length-append (le_bytes 4 v) (encode rest (0x08 ∷ tail)),
        ))
parse_object-encode (entry key (float32 v) rest) built (suc n) tail (k, b, w) h =
    round_lem n built 0x03 key (le_bytes 4 v ++ encode rest (0x08 ∷ tail)) refl k
    ∙ ap (proceed (λ t left. parse_object n (assign key (float32 t) built) left))
        (read_number_lem 4 v _ (encode rest (0x08 ∷ tail)) b)
    ∙ parse_object-encode rest (assign key (float32 v) built) n tail w (
        omega (
          arith,
          length-append key (0 ∷ le_bytes 4 v ++ encode rest (0x08 ∷ tail)),
          length-append (le_bytes 4 v) (encode rest (0x08 ∷ tail)),
        ))
parse_object-encode (entry key (uint64 v) rest) built (suc n) tail (k, b, w) h =
    round_lem n built 0x07 key (le_bytes 8 v ++ encode rest (0x08 ∷ tail)) refl k
    ∙ ap (proceed (λ t left. parse_object n (assign key (uint64 t) built) left))
        (read_number_lem 8 v _ (encode rest (0x08 ∷ tail)) b)
    ∙ parse_object-encode rest (assign key (uint64 v) built) n tail w (
        omega (
          arith,
          length-append key (0 ∷ le_bytes 8 v ++ encode rest (0x08 ∷ tail)),
          length-append (le_bytes 8 v) (encode rest (0x08 ∷ tail)),
        ))

-- From the binary form of an object whose strings have no nulls and whose numbers have their sizes,
-- closed by 0x08 and in front of any bytes, the parser makes the object of all its entries in their
-- order, nested ones included, where a later entry replaces an earlier one with its key; it stops
-- behind the 0x08.
pub parse_binary-encode :
    (obj : Object) (tail : List ℕ)
    → IsWf obj
    → parse_binary (encode obj (0x08 ∷ tail)) ≡ some (ok (assign_all obj empty, tail))
unfolding parse_binary
parse_binary-encode obj tail w =
    parse_object-encode obj empty (suc (length (encode obj (0x08 ∷ tail)))) tail w (omega arith)
