-- ===== src/Vdf/Total.antt =====
-- The parser of src/utils/vdf/vdf_bin.cpp on any input.
use steam_min_cpp.Prelude.{
  ℕ, zero, suc, ◌≤◌, ◌<◌, ◌≡◌, refl, Bool, true, false, none, some, List, [], ◌∷◌, length, ◌==◌,
  String, arith, length-drop, inl, inr, ◌⊎◌,
}
use steam_min_cpp.Prelude.Results.{Result, ok, throws, undefined}
use steam_min_cpp.Vdf.{
  Object, empty, read_cstring, read_number, Parsed, proceed, proceed_parsed, parse_value,
  parse_object, parse_binary, BinType, bin_object, bin_string, bin_int32, bin_float, bin_uint64,
  bin_unknown, bin_type,
}

-- A result that is not undefined, and leaves no more bytes than there were.
abbrev pub Defined {ℓ} : {A : Type ℓ} → ℕ → Result (A × List ℕ) → Type 0
Defined size (ok (a, rest)) = length rest ≤ size
Defined size (throws e) = Unit {0}
Defined size undefined = ⊥

abbrev pub Ended : ℕ → Parsed → Type 0
Ended size none = ⊥
Ended size (some r) = Defined size r

weaken :
    {A : Type 0} {small size : ℕ} (r : Result (A × List ℕ))
    → small ≤ size
    → Defined small r
    → Defined size r
weaken (ok (a, rest)) h d = omega arith
weaken (throws e) h d = tt
weaken undefined h d = d

widen : {small size : ℕ} (p : Parsed) → small ≤ size → Ended small p → Ended size p
widen none h d = d
widen (some r) h d = weaken r h d

read_cstring-Defined : (bytes : List ℕ) → Defined (length bytes) (read_cstring bytes)
unfolding read_cstring
read_cstring-Defined [] = tt
read_cstring-Defined (b ∷ bytes) = ground (arith, read_cstring-Defined bytes)

read_number-Defined :
    (size : ℕ) (message : String) (bytes : List ℕ)
    → Defined (length bytes) (read_number size message bytes)
unfolding read_number
read_number-Defined size message bytes = ground (arith, length-drop size bytes)

proceed-Ended :
    {A : Type 0} (size : ℕ) (next : A → List ℕ → Parsed) (r : Result (A × List ℕ))
    → Defined size r
    → ((a : A) (rest : List ℕ) → length rest ≤ size → Ended size (next a rest))
    → Ended size (proceed next r)
unfolding proceed
proceed-Ended size next (ok (a, rest)) d h = h a rest d
proceed-Ended size next (throws e) d h = tt
proceed-Ended size next undefined d h = d

proceed_parsed-Ended :
    (size : ℕ) (next : Object → List ℕ → Parsed) (r : Parsed)
    → Ended size r
    → ((a : Object) (rest : List ℕ) → length rest ≤ size → Ended size (next a rest))
    → Ended size (proceed_parsed next r)
unfolding proceed_parsed
proceed_parsed-Ended size next none d h = d
proceed_parsed-Ended size next (some r) d h = proceed-Ended size next r d h

-- If the rest of the loop ends on what is left, so does a value.
parse_value-Ended :
    (size : ℕ) (parse : Object → List ℕ → Parsed) (obj : Object) (kind : BinType)
    (key bytes : List ℕ)
    → length bytes ≤ size
    → ((o : Object) (rest : List ℕ) → length rest ≤ size → Ended size (parse o rest))
    → Ended size (parse_value parse obj kind key bytes)
unfolding parse_value
parse_value-Ended size parse obj bin_object key bytes h p =
    proceed_parsed-Ended size _ (parse empty bytes) (p empty bytes h) λ inner rest r. p _ rest r
parse_value-Ended size parse obj bin_string key bytes h p =
    proceed-Ended size _ (read_cstring bytes)
      (weaken (read_cstring bytes) h (read_cstring-Defined bytes)) λ s rest r. p _ rest r
parse_value-Ended size parse obj bin_int32 key bytes h p =
    proceed-Ended size _ (read_number 4 _ bytes)
      (weaken (read_number 4 _ bytes) h (read_number-Defined 4 _ bytes)) λ n rest r. p _ rest r
parse_value-Ended size parse obj bin_float key bytes h p =
    proceed-Ended size _ (read_number 4 _ bytes)
      (weaken (read_number 4 _ bytes) h (read_number-Defined 4 _ bytes)) λ n rest r. p _ rest r
parse_value-Ended size parse obj bin_uint64 key bytes h p =
    proceed-Ended size _ (read_number 8 _ bytes)
      (weaken (read_number 8 _ bytes) h (read_number-Defined 8 _ bytes)) λ n rest r. p _ rest r
parse_value-Ended size parse obj bin_unknown key bytes h p = tt

either_Ended :
    (b : Bool) (size : ℕ) (x y : Parsed)
    → Ended size x
    → Ended size y
    → Ended size (elim b [ true ↦ x | false ↦ y ])
either_Ended true size x y hx hy = hx
either_Ended false size x y hx hy = hy

parse_object-Ended :
    (n : ℕ) (obj : Object) (bytes : List ℕ)
    → length bytes < n
    → Ended (length bytes) (parse_object n obj bytes)
unfolding parse_object
parse_object-Ended zero obj bytes h = absurd (omega arith)
parse_object-Ended (suc n) obj [] h = omega arith
parse_object-Ended (suc n) obj (type ∷ bytes) h =
    either_Ended (type == 0x08) (suc (length bytes)) (some (ok (obj, bytes))) continued
      (omega arith)
      (widen continued (omega arith) (
        proceed-Ended (length bytes) _ (read_cstring bytes) (read_cstring-Defined bytes)
          λ key rest r.
            parse_value-Ended (length bytes) (parse_object n) obj (bin_type type) key rest r
              λ o left l.
                widen (parse_object n o left) l (parse_object-Ended n o left (omega arith))))
  where
    continued : Parsed
    continued =
        proceed (λ key rest. parse_value (parse_object n) obj (bin_type type) key rest)
          (read_cstring bytes)

explained :
    (size : ℕ) (p : Parsed)
    → Ended size p
    → ((obj : Object) × (rest : List ℕ) × (p ≡ some (ok (obj, rest))) × (length rest ≤ size))
      ⊎ ((message : String) × (p ≡ some (throws message)))
explained size none h = elim h [ ]
explained size (some (ok (obj, rest))) h = inl (obj, rest, refl, h)
explained size (some (throws message)) h = inr (message, refl)
explained size (some undefined) h = elim h [ ]

-- On every input the parser ends, with an object and what it did not read, or with an exception: its
-- bound on the rounds is never reached, and nothing is read out of bounds.
pub parse_binary_total :
    (bytes : List ℕ)
    → ((obj : Object) × (rest : List ℕ) × (parse_binary bytes ≡ some (ok (obj, rest)))
        × (length rest ≤ length bytes))
      ⊎ ((message : String) × (parse_binary bytes ≡ some (throws message)))
unfolding parse_binary
parse_binary_total bytes =
    explained (length bytes) (parse_binary bytes)
      (parse_object-Ended (suc (length bytes)) empty bytes (omega arith))
