-- ===== src/Vdf/Text/RoundTrip.antt =====
-- Objects written by `stringify` and read by `parse_text`, of src/utils/vdf/vdf_text.cpp.
use steam_min_cpp.Prelude.{
  ℕ, zero, suc, ◌+◌, ◌-◌, ◌/◌, ◌%◌, ◌^◌, ◌≤◌, ◌<◌, ◌≡◌, refl, sym, ap, ◌∙◌, some, List, [], ◌∷◌,
  ◌++◌, append_assoc, append-nil, All, length, replicate, arith, length-append,
}
use steam_min_cpp.Prelude.Results.{ok}
use steam_min_cpp.Vdf.{
  Object, empty, entry, text, int32, uint64, float32, object, assign, Parsed, proceed_parsed,
}
use steam_min_cpp.Vdf.RoundTrip.{assign_all}
use steam_min_cpp.Vdf.Keys.{Absent, IsUnique, assign_all-IsUnique}
use steam_min_cpp.Vdf.Text.{
  is_space, parse_text_object, parse_top, parse_root, parse_text, newline, closing,
}
use steam_min_cpp.Vdf.Text.Skips.{skip_ws-space}
use steam_min_cpp.Vdf.Text.Stringify.{
  digits, to_string, to_signed_string, line, stringify_object, stringify,
}
use steam_min_cpp.Vdf.Text.Lines.{
  Plain, block, line_long, block_long, member_line, member_block, root_line, root_block, member_end,
}

-- The rounds that the loops make, with those of the nested objects.
rounds : Object → ℕ
rounds empty = 1
rounds (entry key (object inner) rest) = suc (rounds inner + rounds rest)
rounds (entry key (text s) rest) = suc (rounds rest)
rounds (entry key (int32 n) rest) = suc (rounds rest)
rounds (entry key (uint64 n) rest) = suc (rounds rest)
rounds (entry key (float32 n) rest) = suc (rounds rest)

rounds-positive : (obj : Object) → 0 < rounds obj
unfolding rounds
rounds-positive empty = omega arith
rounds-positive (entry key (object inner) rest) = omega arith
rounds-positive (entry key (text s) rest) = omega arith
rounds-positive (entry key (int32 n) rest) = omega arith
rounds-positive (entry key (uint64 n) rest) = omega arith
rounds-positive (entry key (float32 n) rest) = omega arith

digits-Plain : (k n : ℕ) (out : List ℕ) → All Plain out → All Plain (digits k n out)
unfolding digits
digits-Plain zero n out h = h
digits-Plain (suc k) n out h = ground (arith, digits-Plain k (n / 10) ((48 + n % 10) ∷ out))

to_string-Plain : (n : ℕ) → All Plain (to_string n)
unfolding to_string
to_string-Plain n = digits-Plain 20 n [] tt

to_signed_string-Plain : (n : ℕ) → All Plain (to_signed_string n)
unfolding to_signed_string
to_signed_string-Plain n = ground (arith, to_string-Plain n, to_string-Plain (2 ^ 32 - n))

module _ (float_string : ℕ → List ℕ) where
  -- The keys and the texts have no quote and no backslash, nor does the text of a `float`.
  abbrev pub IsPlain : Object → Type 0
  IsPlain empty = Unit {0}
  IsPlain (entry key (object inner) rest) = All Plain key × IsPlain inner × IsPlain rest
  IsPlain (entry key (text s) rest) = All Plain key × All Plain s × IsPlain rest
  IsPlain (entry key (int32 n) rest) = All Plain key × IsPlain rest
  IsPlain (entry key (uint64 n) rest) = All Plain key × IsPlain rest
  IsPlain (entry key (float32 n) rest) = All Plain key × All Plain (float_string n) × IsPlain rest

  -- Every value as the text it is written with.
  abbrev pub as_text : Object → Object
  as_text empty = empty
  as_text (entry key (object inner) rest) = entry key (object (as_text inner)) (as_text rest)
  as_text (entry key (text s) rest) = entry key (text s) (as_text rest)
  as_text (entry key (int32 n) rest) = entry key (text (to_signed_string n)) (as_text rest)
  as_text (entry key (uint64 n) rest) = entry key (text (to_string n)) (as_text rest)
  as_text (entry key (float32 n) rest) = entry key (text (float_string n)) (as_text rest)

  written : Object → ℕ → List ℕ
  written = stringify_object float_string

  nested_shape :
      (indent : ℕ) (key : List ℕ) (inner rest : Object) (tail : List ℕ)
      → written (entry key (object inner) rest) indent ++ tail
        ≡ block indent key (
            written inner (indent + 1)
            ++ (replicate indent 9 ++ closing ∷ newline ∷ (written rest indent ++ tail)))
  unfolding written stringify_object
  nested_shape indent key inner rest tail = simp append_assoc

  -- A line in front of what is read already.
  line_then :
      (n : ℕ) (built : Object) (indent : ℕ) (key val more tail : List ℕ) (result : Parsed)
      → All Plain key
      → All Plain val
      → parse_text_object n (assign key (text val) built) (newline ∷ (more ++ tail)) ≡ result
      → parse_text_object (suc n) built (newline ∷ ((line indent key val ++ more) ++ tail)) ≡ result
  line_then n built indent key val more tail result hk hv e =
      ap (λ t. parse_text_object (suc n) built (newline ∷ t))
        (append_assoc (line indent key val) more tail)
      ∙ member_line n built indent key hk val (more ++ tail) hv
      ∙ e

  root_line_then :
      (n : ℕ) (built : Object) (indent : ℕ) (key val more tail : List ℕ) (result : Parsed)
      → All Plain key
      → All Plain val
      → parse_root n (assign key (text val) built) (newline ∷ (more ++ tail)) ≡ result
      → parse_root (suc n) built (newline ∷ ((line indent key val ++ more) ++ tail)) ≡ result
  root_line_then n built indent key val more tail result hk hv e =
      ap (λ t. parse_root (suc n) built (newline ∷ t))
        (append_assoc (line indent key val) more tail)
      ∙ root_line n built indent key hk val (more ++ tail) hv
      ∙ e

  members :
      (obj built : Object) (n indent : ℕ) (tail : List ℕ)
      → IsPlain obj
      → rounds obj ≤ n
      → parse_text_object n built
          (newline ∷ (written obj (indent + 1) ++ (replicate indent 9 ++ closing ∷ newline ∷ tail)))
        ≡ some (ok (assign_all (as_text obj) built, newline ∷ tail))
  unfolding rounds written stringify_object proceed_parsed
  members obj built zero indent tail w h = absurd (omega (arith, rounds-positive obj))
  members empty built (suc n) indent tail w h = member_end n built indent (newline ∷ tail)
  members (entry key (object inner) rest) built (suc n) indent tail (hk, hi, w) h =
      ap (λ t. parse_text_object (suc n) built (newline ∷ t))
        (nested_shape (indent + 1) key inner rest (replicate indent 9 ++ closing ∷ newline ∷ tail))
      ∙ member_block n built (indent + 1) key hk _
      ∙ ap (proceed_parsed (λ i left. parse_text_object n (assign key (object i) built) left))
          (members inner empty n (indent + 1) _ hi (omega arith))
      ∙ members rest (assign key (object (assign_all (as_text inner) empty)) built) n indent tail w
          (omega (arith, rounds-positive inner))
  members (entry key (text s) rest) built (suc n) indent tail (hk, hv, w) h =
      line_then n built (indent + 1) key s (written rest (indent + 1)) _ _ hk hv
        (members rest _ n indent tail w (omega arith))
  members (entry key (int32 v) rest) built (suc n) indent tail (hk, w) h =
      line_then n built (indent + 1) key (to_signed_string v) (written rest (indent + 1)) _ _ hk
        (to_signed_string-Plain v) (members rest _ n indent tail w (omega arith))
  members (entry key (uint64 v) rest) built (suc n) indent tail (hk, w) h =
      line_then n built (indent + 1) key (to_string v) (written rest (indent + 1)) _ _ hk
        (to_string-Plain v) (members rest _ n indent tail w (omega arith))
  members (entry key (float32 v) rest) built (suc n) indent tail (hk, hv, w) h =
      line_then n built (indent + 1) key (float_string v) (written rest (indent + 1)) _ _ hk hv
        (members rest _ n indent tail w (omega arith))

  roots :
      (obj built : Object) (n : ℕ)
      → IsPlain obj
      → rounds obj ≤ n
      → parse_root n built (newline ∷ (written obj 0 ++ []))
        ≡ some (ok (assign_all (as_text obj) built, []))
  unfolding rounds written stringify_object proceed_parsed parse_root parse_top is_space
  roots obj built zero w h = absurd (omega (arith, rounds-positive obj))
  roots empty built (suc n) w h =
      ap (parse_top (parse_text_object n) (parse_root n) built) (skip_ws-space newline [] refl)
  roots (entry key (object inner) rest) built (suc n) (hk, hi, w) h =
      ap (λ t. parse_root (suc n) built (newline ∷ t)) (nested_shape 0 key inner rest [])
      ∙ root_block n built 0 key hk _
      ∙ ap (proceed_parsed (λ i left. parse_root n (assign key (object i) built) left))
          (members inner empty n 0 _ hi (omega arith))
      ∙ roots rest (assign key (object (assign_all (as_text inner) empty)) built) n w
          (omega (arith, rounds-positive inner))
  roots (entry key (text s) rest) built (suc n) (hk, hv, w) h =
      root_line_then n built 0 key s (written rest 0) [] _ hk hv (roots rest _ n w (omega arith))
  roots (entry key (int32 v) rest) built (suc n) (hk, w) h =
      root_line_then n built 0 key (to_signed_string v) (written rest 0) [] _ hk
        (to_signed_string-Plain v) (roots rest _ n w (omega arith))
  roots (entry key (uint64 v) rest) built (suc n) (hk, w) h =
      root_line_then n built 0 key (to_string v) (written rest 0) [] _ hk (to_string-Plain v)
        (roots rest _ n w (omega arith))
  roots (entry key (float32 v) rest) built (suc n) (hk, hv, w) h =
      root_line_then n built 0 key (float_string v) (written rest 0) [] _ hk hv
        (roots rest _ n w (omega arith))

  -- Every round has its characters.
  written_long : (obj : Object) (indent : ℕ) → rounds obj ≤ suc (length (written obj indent))
  unfolding rounds written stringify_object
  written_long empty indent = omega arith
  written_long (entry key (object inner) rest) indent = omega (
    arith,
    written_long inner (indent + 1),
    written_long rest indent,
    ap length (nested_shape indent key inner rest []),
    length-append (written (entry key (object inner) rest) indent) [],
    block_long indent key (
        written inner (indent + 1)
        ++ (replicate indent 9 ++ closing ∷ newline ∷ (written rest indent ++ []))),
    length-append (written inner (indent + 1))
        (replicate indent 9 ++ closing ∷ newline ∷ (written rest indent ++ [])),
    length-append (replicate indent 9) (closing ∷ newline ∷ (written rest indent ++ [])),
    length-append (written rest indent) [],
  )
  written_long (entry key (text s) rest) indent =
      omega (arith, written_long rest indent, line_long indent key s (written rest indent))
  written_long (entry key (int32 n) rest) indent = omega (
    arith,
    written_long rest indent,
    line_long indent key (to_signed_string n) (written rest indent),
  )
  written_long (entry key (uint64 n) rest) indent =
      omega
        (arith, written_long rest indent, line_long indent key (to_string n) (written rest indent))
  written_long (entry key (float32 n) rest) indent =
      omega (
        arith,
        written_long rest indent,
        line_long indent key (float_string n) (written rest indent),
      )

  root_newline :
      (n : ℕ) (root : Object) (input : List ℕ)
      → parse_root (suc n) root input ≡ parse_root (suc n) root (newline ∷ input)
  unfolding parse_root is_space
  root_newline n root input =
      ap (parse_top (parse_text_object n) (parse_root n) root)
        (sym (skip_ws-space newline input refl))

  as_text-Absent : (key : List ℕ) (obj : Object) → Absent key obj → Absent key (as_text obj)
  as_text-Absent key empty h = tt
  as_text-Absent key (entry k (object inner) rest) (hk, h) = (hk, as_text-Absent key rest h)
  as_text-Absent key (entry k (text s) rest) (hk, h) = (hk, as_text-Absent key rest h)
  as_text-Absent key (entry k (int32 n) rest) (hk, h) = (hk, as_text-Absent key rest h)
  as_text-Absent key (entry k (uint64 n) rest) (hk, h) = (hk, as_text-Absent key rest h)
  as_text-Absent key (entry k (float32 n) rest) (hk, h) = (hk, as_text-Absent key rest h)

  as_text-IsUnique : (obj : Object) → IsUnique obj → IsUnique (as_text obj)
  unfolding IsUnique
  as_text-IsUnique empty u = tt
  as_text-IsUnique (entry key (object inner) rest) (h, v, u) =
      (as_text-Absent key rest h, as_text-IsUnique inner v, as_text-IsUnique rest u)
  as_text-IsUnique (entry key (text s) rest) (h, u) =
      (as_text-Absent key rest h, as_text-IsUnique rest u)
  as_text-IsUnique (entry key (int32 n) rest) (h, u) =
      (as_text-Absent key rest h, as_text-IsUnique rest u)
  as_text-IsUnique (entry key (uint64 n) rest) (h, u) =
      (as_text-Absent key rest h, as_text-IsUnique rest u)
  as_text-IsUnique (entry key (float32 n) rest) (h, u) =
      (as_text-Absent key rest h, as_text-IsUnique rest u)

  -- The text that `stringify` writes of an object, at any nesting, is parsed to the object with every
  -- number as the text it is written with, and to its end: if the object's keys are different, as they
  -- are in a map, and no key, no text and no text of a `float` has a quote or a backslash.
  pub parse_text-stringify :
      (obj : Object)
      → IsPlain obj
      → IsUnique obj
      → parse_text (stringify float_string obj) ≡ some (ok (as_text obj, []))
  unfolding parse_text stringify written
  parse_text-stringify obj w u =
      root_newline _ empty (written obj 0)
      ∙ ap (λ t. parse_root (suc (length (written obj 0))) empty (newline ∷ t))
          (sym (append-nil (written obj 0)))
      ∙ roots obj empty (suc (length (written obj 0))) w (written_long obj 0)
      ∙ ap (λ o. some (ok (o, []))) (assign_all-IsUnique (as_text obj) (as_text-IsUnique obj u))
