-- ===== src/Vdf/Text/Stringify.antt =====
-- src/utils/vdf/vdf_text.cpp, `stringify_object`, and `stringify` of
-- include/steamclient/utilities/vdf.hpp. The entries are written in the order of the list, as the
-- iteration over the `unordered_map` meets them.
use steam_min_cpp.Prelude.{
  ℕ, zero, suc, ◌+◌, ◌-◌, ◌/◌, ◌%◌, ◌^◌, List, [], ◌∷◌, ◌++◌, replicate, ltb, if◌then◌else◌,
}
use steam_min_cpp.Vdf.{Object, empty, entry, text, int32, uint64, float32, object}
use steam_min_cpp.Vdf.Text.{newline, quote, opening, closing}

-- `std::to_string` of an unsigned number: the digits in front of `out`, where the first argument
-- bounds their number.
unfoldable pub digits : ℕ → ℕ → List ℕ → List ℕ
digits zero n out = out
digits (suc k) n out =
    let more = digits k (n / 10) ((48 + n % 10) ∷ out) in
    if ltb n 10 then (48 + n % 10) ∷ out else more

-- A 64-bit number has at most twenty digits.
unfoldable pub to_string : ℕ → List ℕ
unfolding digits
to_string n = digits 20 n []

-- `std::to_string` of an `int32_t`, from its bit pattern.
unfoldable pub to_signed_string : ℕ → List ℕ
unfolding to_string
to_signed_string n = if ltb n (2 ^ 31) then to_string n else 45 ∷ to_string (2 ^ 32 - n)

-- A line with a key and a value.
unfoldable pub line : ℕ → List ℕ → List ℕ → List ℕ
line indent key val =
    replicate indent 9 ++ quote ∷ key ++ quote ∷ 32 ∷ quote ∷ val ++ quote ∷ newline ∷ []

-- `std::to_string` of a `float` is `float_string`, on the bit pattern.
module _ (float_string : ℕ → List ℕ) where
  unfoldable pub stringify_object : Object → ℕ → List ℕ
  unfolding line to_string to_signed_string
  stringify_object empty indent = []
  stringify_object (entry key (object inner) rest) indent =
      (replicate indent 9 ++ quote ∷ key ++ quote ∷ newline ∷ [])
      ++ (replicate indent 9 ++ opening ∷ newline ∷ [])
      ++ stringify_object inner (indent + 1)
      ++ (replicate indent 9 ++ closing ∷ newline ∷ [])
      ++ stringify_object rest indent
  stringify_object (entry key (text s) rest) indent =
      line indent key s ++ stringify_object rest indent
  stringify_object (entry key (int32 n) rest) indent =
      line indent key (to_signed_string n) ++ stringify_object rest indent
  stringify_object (entry key (uint64 n) rest) indent =
      line indent key (to_string n) ++ stringify_object rest indent
  stringify_object (entry key (float32 n) rest) indent =
      line indent key (float_string n) ++ stringify_object rest indent

  unfoldable pub stringify : Object → List ℕ
  unfolding stringify_object
  stringify obj = stringify_object obj 0
