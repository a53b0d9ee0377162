-- ===== src/Vdf.antt =====
-- src/utils/vdf/vdf_bin.cpp and include/steamclient/utilities/vdf.hpp: VDF documents and their binary
-- form. A position in the data is the list of the bytes from it on. Numbers are bit patterns.
pub mod Total
pub mod Access
pub mod RoundTrip
pub mod Keys
pub mod Text
use steam_min_cpp.Prelude.{
  ℕ, zero, suc, ◌+◌, Bool, true, false, ◌&&◌, Option, none, some, List, [], ◌∷◌, length, take, drop,
  ltb, ◌==◌, if◌then◌else◌, String,
}
use steam_min_cpp.Prelude.Results.{Result, ok, throws, undefined}
use steam_min_cpp.Stream.Bytes.{le_value}

-- The alternatives of `Value`, and an `unordered_map` of nodes as its entries, with different keys.
mutual
  pub data VdfNode : Type 0 where
    text : List ℕ → VdfNode
    int32 : ℕ → VdfNode
    uint64 : ℕ → VdfNode
    float32 : ℕ → VdfNode
    object : Object → VdfNode

  pub data Object : Type 0 where
    empty : Object
    entry : List ℕ → VdfNode → Object → Object

unfoldable pub same_key : List ℕ → List ℕ → Bool
same_key [] [] = true
same_key [] (y ∷ ys) = false
same_key (x ∷ xs) [] = false
same_key (x ∷ xs) (y ∷ ys) = x == y && same_key xs ys

-- `obj[key].value = node`.
unfoldable pub assign : List ℕ → VdfNode → Object → Object
unfolding same_key
assign key node empty = entry key node empty
assign key node (entry k old rest) =
    if same_key key k then entry k node rest else entry k old (assign key node rest)

-- `obj->find(key)`.
unfoldable pub find : List ℕ → Object → Option VdfNode
unfolding same_key
find key empty = none
find key (entry k node rest) = if same_key key k then some node else find key rest

unfoldable pub get : List ℕ → VdfNode → Option VdfNode
get key (object obj) = find key obj
get key (text s) = none
get key (int32 n) = none
get key (uint64 n) = none
get key (float32 n) = none

unfoldable pub get_path : List (List ℕ) → VdfNode → Option VdfNode
get_path [] node = some node
get_path (key ∷ keys) node = elim (get key node) [ none ↦ none | some next ↦ get_path keys next ]

unfoldable pub get_string_or : List ℕ → List ℕ → VdfNode → List ℕ
get_string_or key def node = elim (get key node) [ some (text s) ↦ s | _ ↦ def ]

unfoldable pub get_int_or : List ℕ → ℕ → VdfNode → ℕ
get_int_or key def node = elim (get key node) [ some (int32 n) ↦ n | _ ↦ def ]

unfoldable pub get_uint64_or : List ℕ → ℕ → VdfNode → ℕ
get_uint64_or key def node = elim (get key node) [ some (uint64 n) ↦ n | _ ↦ def ]

unfoldable pub get_float_or : List ℕ → ℕ → VdfNode → ℕ
get_float_or key def node = elim (get key node) [ some (float32 n) ↦ n | _ ↦ def ]

-- The characters up to a null, and the bytes behind it.
unfoldable pub read_cstring : List ℕ → Result (List ℕ × List ℕ)
read_cstring [] = throws "Unexpected end of buffer while reading cstring"
read_cstring (b ∷ bytes) = elim (b == 0) [
  | true ↦ ok ([], bytes)
  | false ↦ elim (read_cstring bytes) [
    | ok (s, rest) ↦ ok (b ∷ s, rest)
    | throws e ↦ throws e
    | undefined ↦ undefined
  ]
]

-- `read_int32`, `read_uint64` and `read_float`, which differ in the size and the message.
unfoldable pub read_number : ℕ → String → List ℕ → Result (ℕ × List ℕ)
read_number size message bytes =
    if ltb (length bytes) size
    then throws message
    else ok (le_value (take size bytes), drop size bytes)

-- What a bounded parse gives: none if the bound is too small.
abbrev pub Parsed : Type 0
Parsed = Option (Result (Object × List ℕ))

-- What follows the reading of a value: it is assigned, and the loop goes on.
pub proceed : {A : Type 0} → (A → List ℕ → Parsed) → Result (A × List ℕ) → Parsed
proceed next (ok (a, rest)) = next a rest
proceed next (throws e) = some (throws e)
proceed next undefined = some undefined

pub proceed_parsed : (Object → List ℕ → Parsed) → Parsed → Parsed
unfolding proceed
proceed_parsed next none = none
proceed_parsed next (some r) = proceed next r

-- The cases of the `switch`.
pub data BinType : Type 0 where
  bin_object bin_string bin_int32 bin_float bin_uint64 bin_unknown : BinType

unfoldable pub bin_type : ℕ → BinType
bin_type code =
    if code == 0x00
    then bin_object
    else (if code == 0x01
        then bin_string
        else (if code == 0x02
            then bin_int32
            else (if code == 0x03
                then bin_float
                else (if code == 0x07 then bin_uint64 else bin_unknown))))

-- The `switch` on the type; `parse` is the rest of the loop and the nested call.
pub parse_value : (Object → List ℕ → Parsed) → Object → BinType → List ℕ → List ℕ → Parsed
unfolding proceed proceed_parsed
parse_value parse obj bin_object key bytes =
    proceed_parsed (λ inner rest. parse (assign key (object inner) obj) rest) (parse empty bytes)
parse_value parse obj bin_string key bytes =
    proceed (λ s rest. parse (assign key (text s) obj) rest) (read_cstring bytes)
parse_value parse obj bin_int32 key bytes =
    proceed (λ n rest. parse (assign key (int32 n) obj) rest)
      (read_number 4 "Binary VDF overflow (int32)" bytes)
parse_value parse obj bin_float key bytes =
    proceed (λ n rest. parse (assign key (float32 n) obj) rest)
      (read_number 4 "Binary VDF overflow (float)" bytes)
parse_value parse obj bin_uint64 key bytes =
    proceed (λ n rest. parse (assign key (uint64 n) obj) rest)
      (read_number 8 "Binary VDF overflow (uint64)" bytes)
parse_value parse obj bin_unknown key bytes = some (throws "Unknown binary VDF type")

-- The loop of `parse_object`, on the object that is built so far. The first argument bounds the
-- rounds and the nesting together.
unfoldable pub parse_object : ℕ → Object → List ℕ → Parsed
unfolding proceed parse_value bin_type
parse_object zero obj bytes = none
parse_object (suc n) obj [] = some (ok (obj, []))
parse_object (suc n) obj (type ∷ bytes) = elim (type == 0x08) [
  | true ↦ some (ok (obj, bytes))
  | false ↦
      proceed (λ key rest. parse_value (parse_object n) obj (bin_type type) key rest)
        (read_cstring bytes)
]

-- The bound is one more than the number of bytes.
unfoldable pub parse_binary : List ℕ → Parsed
unfolding parse_object
parse_binary bytes = parse_object (suc (length bytes)) empty bytes

-- `as_object`, `as_string`, `as_int`, `as_uint64` and `as_float`.
unfoldable pub as_object : VdfNode → Result Object
as_object (object obj) = ok obj
as_object _ = throws "bad_variant_access"

unfoldable pub as_string : VdfNode → Result (List ℕ)
as_string (text s) = ok s
as_string _ = throws "bad_variant_access"

unfoldable pub as_int : VdfNode → Result ℕ
as_int (int32 n) = ok n
as_int _ = throws "bad_variant_access"

unfoldable pub as_uint64 : VdfNode → Result ℕ
as_uint64 (uint64 n) = ok n
as_uint64 _ = throws "bad_variant_access"

unfoldable pub as_float : VdfNode → Result ℕ
as_float (float32 n) = ok n
as_float _ = throws "bad_variant_access"
