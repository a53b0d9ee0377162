-- ===== src/Tests/Documents.antt =====
-- VDF documents, binary and text.
use steam_min_cpp.Prelude.{
  ℕ, ◌≤◌, ◌≡◌, ◌≢◌, ◌⊎◌, refl, some, none, List, [], ◌∷◌, length, false, arith, String,
}
use steam_min_cpp.Prelude.Results.{ok, throws, undefined}
use steam_min_cpp.Vdf.{
  Object, empty, entry, text, int32, uint64, float32, object, parse_binary, same_key,
}
use steam_min_cpp.Vdf.Total.{parse_binary_total}
use steam_min_cpp.Vdf.RoundTrip.{encode, assign_all, parse_binary-encode}
use steam_min_cpp.Vdf.Keys.{IsUnique}
use steam_min_cpp.Vdf.Text.{parse_text, skip_ws}
use steam_min_cpp.Vdf.Text.Skips.{at_blank, skip_ws-stops}
use steam_min_cpp.Vdf.Text.Total.{parse_text_ends}
use steam_min_cpp.Vdf.Text.Stringify.{stringify}
use steam_min_cpp.Vdf.Text.RoundTrip.{as_text, parse_text-stringify}

-- "a" { "b" "hi" "b" 7 }.
abbrev document : Object
document =
    entry (97 ∷ [])
      (object (entry (98 ∷ []) (text (104 ∷ 105 ∷ [])) (entry (98 ∷ []) (int32 7) empty))) empty

parse_binary-encode_example :
    parse_binary (encode document (0x08 ∷ 1 ∷ [])) ≡ some (ok (assign_all document empty, 1 ∷ []))
parse_binary-encode_example = parse_binary-encode document (1 ∷ []) (
  (omega arith, tt),
  ((omega arith, tt), (omega arith, (omega arith, tt)), ((omega arith, tt), omega arith, tt)),
  tt,
)

abbrev cut : List ℕ
cut = 0x00 ∷ 97 ∷ 0 ∷ 0x02 ∷ 98 ∷ 0 ∷ 7 ∷ []

parse_binary_total_example :
    ((obj : Object) × (rest : List ℕ) × (parse_binary cut ≡ some (ok (obj, rest)))
      × (length rest ≤ 7))
    ⊎ ((message : String) × (parse_binary cut ≡ some (throws message)))
parse_binary_total_example = parse_binary_total cut

abbrev a_key : List ℕ
a_key = 97 ∷ []

abbrev b_key : List ℕ
b_key = 98 ∷ []

-- "a" { "b" "hi" "c" "-7" } "d" "12" "e" "0.5", with its numbers.
abbrev half : ℕ → List ℕ
half n = 48 ∷ 46 ∷ 53 ∷ []

abbrev tree : Object
tree =
    entry (97 ∷ [])
      (object (entry (98 ∷ []) (text (104 ∷ 105 ∷ [])) (entry (99 ∷ []) (int32 4294967289) empty)))
      (entry (100 ∷ []) (uint64 12) (entry (101 ∷ []) (float32 1056964608) empty))

tree-IsUnique : IsUnique tree
unfolding IsUnique same_key
tree-IsUnique = ((refl, (refl, tt)), ((refl, tt), (tt, tt)), ((refl, tt), (tt, tt)))

parse_text-stringify_example : parse_text (stringify half tree) ≡ some (ok (as_text half tree, []))
parse_text-stringify_example =
    parse_text-stringify half tree
      (
        ((omega arith, omega arith), tt),
        (
          ((omega arith, omega arith), tt),
          ((omega arith, omega arith), ((omega arith, omega arith), tt)),
          (((omega arith, omega arith), tt), tt),
        ),
        (
          ((omega arith, omega arith), tt),
          (
            ((omega arith, omega arith), tt),
            (
              (omega arith, omega arith),
              ((omega arith, omega arith), ((omega arith, omega arith), tt)),
            ),
            tt,
          ),
        ),
      )
      tree-IsUnique

-- "a" "\"" is printed without an escape, and its second string is not closed by the end.
text_of_quote :
    parse_text (stringify half (entry (97 ∷ []) (text (34 ∷ [])) empty)) ≡ some undefined
unfolding parse_text stringify
text_of_quote = refl

-- "a" {
abbrev open_block : List ℕ
open_block = 34 ∷ 97 ∷ 34 ∷ 32 ∷ 123 ∷ []

text_of_open_block : parse_text open_block ≡ some undefined
unfolding parse_text
text_of_open_block = refl

parse_text_ends_example : parse_text open_block ≢ none
parse_text_ends_example = parse_text_ends open_block

skip_ws-stops_example : at_blank (skip_ws (32 ∷ 47 ∷ 47 ∷ 97 ∷ 10 ∷ 9 ∷ 98 ∷ [])) ≡ false
skip_ws-stops_example = skip_ws-stops (32 ∷ 47 ∷ 47 ∷ 97 ∷ 10 ∷ 9 ∷ 98 ∷ [])

-- A comment between blanks.
skip_comment : skip_ws (32 ∷ 47 ∷ 47 ∷ 97 ∷ 10 ∷ 9 ∷ 98 ∷ []) ≡ 98 ∷ []
unfolding skip_ws
skip_comment = refl
