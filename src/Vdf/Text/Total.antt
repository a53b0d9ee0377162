-- ===== src/Vdf/Text/Total.antt =====
-- The parser of src/utils/vdf/vdf_text.cpp on any input.
use steam_min_cpp.Prelude.{
  ℕ, zero, suc, ◌≤◌, ◌≢◌, Bool, true, false, none, some, List, [], ◌∷◌, length, ◌==◌, arith,
}
use steam_min_cpp.Prelude.Results.{Result, ok, throws, undefined}
use steam_min_cpp.Vdf.{Object, empty, text, object, assign, Parsed, proceed, proceed_parsed}
use steam_min_cpp.Vdf.Text.{
  escaped, put, parse_chars, parse_quoted, parse_string, skip_ws, parse_node, parse_entry,
  parse_member, parse_text_object, parse_top, parse_root, parse_text, quote, opening, closing,
}
use steam_min_cpp.Vdf.Text.Skips.{skip_ws-shorter}

-- What is left of the input after a value, if there is one.
abbrev Leaves : {A : Type 0} → ℕ → Result (A × List ℕ) → Type 0
Leaves size (ok (a, rest)) = length rest ≤ size
Leaves size (throws e) = Unit {0}
Leaves size undefined = Unit {0}

-- The bound is not reached, and no more is left than `size`.
abbrev Halts : ℕ → Parsed → Type 0
Halts size none = ⊥
Halts size (some r) = Leaves size r

widen-Leaves :
    {A : Type 0} {small size : ℕ} (r : Result (A × List ℕ))
    → small ≤ size
    → Leaves small r
    → Leaves size r
widen-Leaves (ok (a, rest)) h d = omega arith
widen-Leaves (throws e) h d = tt
widen-Leaves undefined h d = tt

widen : {small size : ℕ} (p : Parsed) → small ≤ size → Halts small p → Halts size p
widen none h d = d
widen (some r) h d = widen-Leaves r h d

put-Leaves : (size c : ℕ) (r : Result (List ℕ × List ℕ)) → Leaves size r → Leaves size (put c r)
unfolding put
put-Leaves size c (ok (out, rest)) h = h
put-Leaves size c (throws e) h = tt
put-Leaves size c undefined h = tt

either_Leaves :
    {A : Type 0} (b : Bool) (size : ℕ) (x y : Result (A × List ℕ))
    → Leaves size x
    → Leaves size y
    → Leaves size (elim b [ true ↦ x | false ↦ y ])
either_Leaves true size x y hx hy = hx
either_Leaves false size x y hx hy = hy

parse_chars-Leaves : (input : List ℕ) → Leaves (length input) (parse_chars input)
unfolding parse_chars
parse_chars-Leaves [] = omega arith
parse_chars-Leaves (c ∷ []) = ground arith
parse_chars-Leaves (c ∷ n ∷ input) =
    either_Leaves (c == quote) (suc (suc (length input))) (ok ([], n ∷ input)) _ (omega arith) (
      either_Leaves (c == 92) (suc (suc (length input))) (put (escaped n) (parse_chars input))
        (put c (parse_chars (n ∷ input)))
        (widen-Leaves (put (escaped n) (parse_chars input)) (omega arith)
          (put-Leaves _ (escaped n) (parse_chars input) (parse_chars-Leaves input)))
        (widen-Leaves (put c (parse_chars (n ∷ input))) (omega arith)
          (put-Leaves _ c (parse_chars (n ∷ input)) (parse_chars-Leaves (n ∷ input)))))

-- A string has at least its quote.
parse_quoted-Leaves :
    (input : List ℕ) (size : ℕ) → length input ≤ suc size → Leaves size (parse_quoted input)
unfolding parse_quoted
parse_quoted-Leaves [] size h = tt
parse_quoted-Leaves (c ∷ input) size h =
    either_Leaves (c == quote) size (parse_chars input) (throws "Expected quote")
      (widen-Leaves (parse_chars input) (omega arith) (parse_chars-Leaves input)) tt

parse_string-Leaves :
    (input : List ℕ) (size : ℕ) → length input ≤ suc size → Leaves size (parse_string input)
unfolding parse_string
parse_string-Leaves input size h =
    parse_quoted-Leaves (skip_ws input) size (omega (arith, skip_ws-shorter input))

proceed-Halts :
    {A : Type 0} (size : ℕ) (next : A → List ℕ → Parsed) (r : Result (A × List ℕ))
    → Leaves size r
    → ((a : A) (rest : List ℕ) → length rest ≤ size → Halts size (next a rest))
    → Halts size (proceed next r)
unfolding proceed
proceed-Halts size next (ok (a, rest)) d h = h a rest d
proceed-Halts size next (throws e) d h = tt
proceed-Halts size next undefined d h = tt

proceed_parsed-Halts :
    (size : ℕ) (next : Object → List ℕ → Parsed) (r : Parsed)
    → Halts size r
    → ((a : Object) (rest : List ℕ) → length rest ≤ size → Halts size (next a rest))
    → Halts size (proceed_parsed next r)
unfolding proceed_parsed
proceed_parsed-Halts size next none d h = d
proceed_parsed-Halts size next (some r) d h = proceed-Halts size next r d h

-- The calls of a round that do end, on no more characters than `size`.
abbrev Ends : ℕ → (Object → List ℕ → Parsed) → Type 0
Ends size next = (obj : Object) (rest : List ℕ) → length rest ≤ size → Halts size (next obj rest)

either_Halts :
    (b : Bool) (size : ℕ) (x y : Parsed)
    → Halts size x
    → Halts size y
    → Halts size (elim b [ true ↦ x | false ↦ y ])
either_Halts true size x y hx hy = hx
either_Halts false size x y hx hy = hy

parse_node-Halts :
    (size : ℕ) (nested next : Object → List ℕ → Parsed) (obj : Object) (key input : List ℕ)
    → length input ≤ size
    → Ends size nested
    → Ends size next
    → Halts size (parse_node nested next obj key input)
unfolding parse_node
parse_node-Halts size nested next obj key [] h p q = tt
parse_node-Halts size nested next obj key (c ∷ input) h p q =
    either_Halts (c == opening) size _ _
      (proceed_parsed-Halts size (λ inner rest. next (assign key (object inner) obj) rest)
        (nested empty input) (p empty input (omega arith)) λ inner rest r. q _ rest r)
      (proceed-Halts size (λ val rest. next (assign key (text val) obj) rest)
        (parse_string (c ∷ input)) (parse_string-Leaves (c ∷ input) size (omega arith))
        λ val rest r. q _ rest r)

parse_entry-Halts :
    (size : ℕ) (nested next : Object → List ℕ → Parsed) (obj : Object) (input : List ℕ)
    → length input ≤ suc size
    → Ends size nested
    → Ends size next
    → Halts size (parse_entry nested next obj input)
unfolding parse_entry
parse_entry-Halts size nested next obj input h p q =
    proceed-Halts size (λ key rest. parse_node nested next obj key (skip_ws rest))
      (parse_string input) (parse_string-Leaves input size h)
      λ key rest r.
        parse_node-Halts size nested next obj key (skip_ws rest)
          (omega (arith, skip_ws-shorter rest)) p q

parse_member-Halts :
    (size : ℕ) (next : Object → List ℕ → Parsed) (obj : Object) (input : List ℕ)
    → length input ≤ suc size
    → Ends size next
    → Halts size (parse_member next obj input)
unfolding parse_member
parse_member-Halts size next obj [] h p = tt
parse_member-Halts size next obj (c ∷ input) h p =
    either_Halts (c == closing) size (some (ok (obj, input))) _ (omega arith)
      (parse_entry-Halts size next next obj (c ∷ input) h p p)

parse_top-Halts :
    (size : ℕ) (nested next : Object → List ℕ → Parsed) (root : Object) (input : List ℕ)
    → length input ≤ suc size
    → Ends size nested
    → Ends size next
    → Halts size (parse_top nested next root input)
unfolding parse_top
parse_top-Halts size nested next root [] h p q = omega arith
parse_top-Halts size nested next root (c ∷ input) h p q =
    parse_entry-Halts size nested next root (c ∷ input) h p q

parse_text_object-Halts :
    (n : ℕ) (obj : Object) (input : List ℕ)
    → length input ≤ n
    → Halts n (parse_text_object (suc n) obj input)
unfolding parse_text_object
parse_text_object-Halts zero obj [] h = tt
parse_text_object-Halts zero obj (c ∷ input) h = absurd (omega arith)
parse_text_object-Halts (suc n) obj input h =
    widen (parse_text_object (suc (suc n)) obj input) (omega arith) (
      parse_member-Halts n (parse_text_object (suc n)) obj (skip_ws input)
        (omega (arith, skip_ws-shorter input)) λ o rest r. parse_text_object-Halts n o rest r)

parse_root-Halts :
    (n : ℕ) (root : Object) (input : List ℕ)
    → length input ≤ n
    → Halts n (parse_root (suc n) root input)
unfolding parse_root
parse_root-Halts zero root [] h = omega arith
parse_root-Halts zero root (c ∷ input) h = absurd (omega arith)
parse_root-Halts (suc n) root input h = widen (parse_root (suc (suc n)) root input) (omega arith) (
    parse_top-Halts n (parse_text_object (suc n)) (parse_root (suc n)) root (skip_ws input)
      (omega (arith, skip_ws-shorter input)) (λ o rest r. parse_text_object-Halts n o rest r)
      λ o rest r. parse_root-Halts n o rest r)

reached : (size : ℕ) (p : Parsed) → Halts size p → p ≢ none
reached size none h e = h
reached size (some r) h e = cc

-- On every input `parse_text` ends: its bound on the rounds and the nesting is never reached.
pub parse_text_ends : (input : List ℕ) → parse_text input ≢ none
unfolding parse_text
parse_text_ends input =
    reached (length input) (parse_root (suc (length input)) empty input)
      (parse_root-Halts (length input) empty input (omega arith))
