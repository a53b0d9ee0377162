-- ===== src/Vdf/Text.antt =====
-- src/utils/vdf/vdf_text.cpp, `TextParser` and `parse_text`. A position in the input is the list of
-- the characters from it on; to read past the end of the input is undefined behaviour.
pub mod Total
pub mod Skips
pub mod Stringify
pub mod Lines
pub mod RoundTrip
use steam_min_cpp.Prelude.{
  ℕ, zero, suc, ◌+◌, Bool, true, false, ◌&&◌, ◌||◌, some, none, List, [], ◌∷◌, length, leb, ◌==◌,
  if◌then◌else◌,
}
use steam_min_cpp.Prelude.Results.{Result, ok, throws, undefined}
use steam_min_cpp.Vdf.{Object, empty, text, object, assign, Parsed, proceed, proceed_parsed}

abbrev pub newline : ℕ
newline = 10

abbrev pub quote : ℕ
quote = 34

abbrev pub slash : ℕ
slash = 47

abbrev pub backslash : ℕ
backslash = 92

abbrev pub opening : ℕ
opening = 123

abbrev pub closing : ℕ
closing = 125

-- `std::isspace`: space, and horizontal tab to carriage return.
unfoldable pub is_space : ℕ → Bool
is_space c = c == 32 || leb 9 c && leb c 13

-- The first loop of `skip_ws`.
unfoldable pub skip_spaces : List ℕ → List ℕ
unfolding is_space
skip_spaces [] = []
skip_spaces (c ∷ input) = elim (is_space c) [ true ↦ skip_spaces input | false ↦ c ∷ input ]

-- The second loop of `skip_ws`.
unfoldable pub skip_line : List ℕ → List ℕ
skip_line [] = []
skip_line (c ∷ input) = elim (c == newline) [ true ↦ c ∷ input | false ↦ skip_line input ]

unfoldable pub at_comment : List ℕ → Bool
at_comment [] = false
at_comment (c ∷ []) = false
at_comment (c ∷ d ∷ input) = c == slash && d == slash

-- `skip_ws`, where the first argument bounds the comments that it skips.
unfoldable pub skip_within : ℕ → List ℕ → List ℕ
unfolding skip_spaces at_comment skip_line
skip_within zero input = input
skip_within (suc n) input = elim (at_comment (skip_spaces input)) [
  | true ↦ skip_within n (skip_line (skip_spaces input))
  | false ↦ skip_spaces input
]

-- A comment has two characters, so the length bounds the comments.
unfoldable pub skip_ws : List ℕ → List ℕ
unfolding skip_within
skip_ws input = skip_within (length input) input

-- The inner `switch` of `parse_string`.
unfoldable pub escaped : ℕ → ℕ
escaped n =
    if n == 110
    then newline
    else (if n == 116
        then 9
        else (if n == backslash then backslash else (if n == quote then quote else n)))

-- `out += c`, in front of what the rest of the loop appends.
unfoldable pub put : ℕ → Result (List ℕ × List ℕ) → Result (List ℕ × List ℕ)
put c (ok (out, input)) = ok (c ∷ out, input)
put c (throws e) = throws e
put c undefined = undefined

-- The loop of `parse_string`, which also ends at the end of the input.
unfoldable pub parse_chars : List ℕ → Result (List ℕ × List ℕ)
unfolding escaped put
parse_chars [] = ok ([], [])
parse_chars (c ∷ []) = elim (c == quote) [
  | true ↦ ok ([], [])
  | false ↦ elim (c == backslash) [ true ↦ undefined | false ↦ ok (c ∷ [], []) ]
]
parse_chars (c ∷ n ∷ input) = elim (c == quote) [
  | true ↦ ok ([], n ∷ input)
  | false ↦ elim (c == backslash) [
    | true ↦ put (escaped n) (parse_chars input)
    | false ↦ put c (parse_chars (n ∷ input))
  ]
]

unfoldable pub parse_quoted : List ℕ → Result (List ℕ × List ℕ)
unfolding parse_chars
parse_quoted [] = undefined
parse_quoted (c ∷ input) = elim (c == quote) [
  | true ↦ parse_chars input
  | false ↦ throws "Expected quote"
]

unfoldable pub parse_string : List ℕ → Result (List ℕ × List ℕ)
unfolding parse_quoted skip_ws
parse_string input = parse_quoted (skip_ws input)

-- What follows a key in both loops: `nested` is the call of `parse_object` behind the brace, and
-- `next` the rest of the loop.
unfoldable pub parse_node :
    (Object → List ℕ → Parsed) → (Object → List ℕ → Parsed) → Object → List ℕ → List ℕ → Parsed
unfolding proceed proceed_parsed parse_string
parse_node nested next obj key [] = some undefined
parse_node nested next obj key (c ∷ input) = elim (c == opening) [
  | true ↦
      proceed_parsed (λ inner rest. next (assign key (object inner) obj) rest) (nested empty input)
  | false ↦ proceed (λ val rest. next (assign key (text val) obj) rest) (parse_string (c ∷ input))
]

-- The key, the blanks behind it and the value.
unfoldable pub parse_entry :
    (Object → List ℕ → Parsed) → (Object → List ℕ → Parsed) → Object → List ℕ → Parsed
unfolding proceed parse_node parse_string
parse_entry nested next obj input =
    proceed (λ key rest. parse_node nested next obj key (skip_ws rest)) (parse_string input)

-- A round of `parse_object` behind `skip_ws`.
unfoldable pub parse_member : (Object → List ℕ → Parsed) → Object → List ℕ → Parsed
unfolding parse_entry
parse_member next obj [] = some undefined
parse_member next obj (c ∷ input) = elim (c == closing) [
  | true ↦ some (ok (obj, input))
  | false ↦ parse_entry next next obj (c ∷ input)
]

-- The loop of `parse_object` on the object that is built so far. The first argument bounds the rounds
-- and the nesting together.
unfoldable pub parse_text_object : ℕ → Object → List ℕ → Parsed
unfolding parse_member
parse_text_object zero obj input = none
parse_text_object (suc n) obj input = parse_member (parse_text_object n) obj (skip_ws input)

-- A round of `parse` behind `skip_ws`.
unfoldable pub parse_top :
    (Object → List ℕ → Parsed) → (Object → List ℕ → Parsed) → Object → List ℕ → Parsed
unfolding parse_entry
parse_top nested next root [] = some (ok (root, []))
parse_top nested next root (c ∷ input) = parse_entry nested next root (c ∷ input)

-- The loop of `parse`; at the end of the input there is nothing to skip either.
unfoldable pub parse_root : ℕ → Object → List ℕ → Parsed
unfolding parse_top parse_text_object
parse_root zero root input = none
parse_root (suc n) root input = parse_top (parse_text_object n) (parse_root n) root (skip_ws input)

-- The bound is one more than the number of characters.
unfoldable pub parse_text : List ℕ → Parsed
unfolding parse_root
parse_text input = parse_root (suc (length input)) empty input
