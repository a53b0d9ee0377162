-- ===== src/Vdf/Text/Lines.antt =====
-- The lines that `stringify_object` of src/utils/vdf/vdf_text.cpp writes, in the two loops of
-- `TextParser`.
use steam_min_cpp.Prelude.{
  ℕ, suc, ◌≤◌, ◌≡◌, ◌≢◌, refl, ap, ◌∙◌, true, false, some, List, [], ◌∷◌, ◌++◌, append_assoc, All,
  All-replicate, length, replicate, ◌==◌, arith, length-append,
}
use steam_min_cpp.Prelude.Results.{ok}
use steam_min_cpp.Vdf.{Object, empty, text, object, assign, Parsed, proceed, proceed_parsed}
use steam_min_cpp.Vdf.Text.{
  is_space, skip_ws, escaped, put, parse_chars, parse_quoted, parse_string, parse_node, parse_entry,
  parse_member, parse_text_object, parse_top, parse_root, newline, quote, slash, backslash, opening,
  closing,
}
use steam_min_cpp.Vdf.Text.Skips.{at_blank_solid, skip_ws-none, skip_ws-space, skip_ws-spaces}
use steam_min_cpp.Vdf.Text.Stringify.{line}

-- A character that `parse_string` copies.
abbrev pub Plain : ℕ → Type 0
Plain c = (c ≢ quote) × (c ≢ backslash)

other : (a b : ℕ) → a ≢ b → (a == b) ≡ false
other a b h = ground arith

parse_chars-Plain :
    (c n : ℕ) (input : List ℕ)
    → Plain c
    → parse_chars (c ∷ n ∷ input) ≡ put c (parse_chars (n ∷ input))
unfolding parse_chars
parse_chars-Plain c n input (hq, hb) =
    ap
      (λ b. elim b [
        | true ↦ ok ([], n ∷ input)
        | false ↦ elim (c == backslash) [
          | true ↦ put (escaped n) (parse_chars input)
          | false ↦ put c (parse_chars (n ∷ input))
        ]
      ])
      (other c quote hq)
    ∙ ap
        (λ b. elim b [
          | true ↦ put (escaped n) (parse_chars input)
          | false ↦ put c (parse_chars (n ∷ input))
        ])
        (other c backslash hb)

parse_chars_lem : (s rest : List ℕ) → All Plain s → parse_chars (s ++ quote ∷ rest) ≡ ok (s, rest)
unfolding parse_chars put
parse_chars_lem [] [] h = refl
parse_chars_lem [] (c ∷ rest) h = refl
parse_chars_lem (c ∷ []) rest (hc, h) =
    parse_chars-Plain c quote rest hc ∙ ap (put c) (parse_chars_lem [] rest tt)
parse_chars_lem (c ∷ d ∷ s) rest (hc, h) =
    parse_chars-Plain c d (s ++ quote ∷ rest) hc ∙ ap (put c) (parse_chars_lem (d ∷ s) rest h)

solid :
    (c : ℕ) (input : List ℕ)
    → is_space c ≡ false
    → (c == slash) ≡ false
    → skip_ws (c ∷ input) ≡ c ∷ input
solid c input h k = skip_ws-none (c ∷ input) (at_blank_solid c input h k)

parse_string_lem :
    (s rest : List ℕ) → All Plain s → parse_string (quote ∷ s ++ quote ∷ rest) ≡ ok (s, rest)
unfolding parse_string parse_quoted is_space
parse_string_lem s rest h =
    ap parse_quoted (solid quote (s ++ quote ∷ rest) refl refl) ∙ parse_chars_lem s rest h

-- Behind the tabs of the indentation.
indented :
    (indent c : ℕ) (input : List ℕ)
    → is_space c ≡ false
    → (c == slash) ≡ false
    → skip_ws (newline ∷ (replicate indent 9 ++ c ∷ input)) ≡ c ∷ input
unfolding is_space
indented indent c input h k =
    skip_ws-space newline (replicate indent 9 ++ c ∷ input) refl
    ∙ skip_ws-spaces (replicate indent 9) (c ∷ input)
        (All-replicate (λ t. is_space t ≡ true) indent 9 refl)
    ∙ solid c input h k

module _ (nested next : Object → List ℕ → Parsed) (obj : Object) (key : List ℕ) where
  key_lem :
      (rest : List ℕ)
      → All Plain key
      → parse_entry nested next obj (quote ∷ key ++ quote ∷ rest)
        ≡ parse_node nested next obj key (skip_ws rest)
  unfolding parse_entry
  key_lem rest h =
      ap (proceed (λ k left. parse_node nested next obj k (skip_ws left)))
        (parse_string_lem key rest h)

  -- A value on the line of its key.
  entry_line :
      (val rest : List ℕ)
      → All Plain key
      → All Plain val
      → parse_entry nested next obj
          (quote ∷ key ++ quote ∷ 32 ∷ quote ∷ (val ++ quote ∷ newline ∷ rest))
        ≡ next (assign key (text val) obj) (newline ∷ rest)
  unfolding parse_node is_space
  entry_line val rest hk hv =
      key_lem (32 ∷ quote ∷ (val ++ quote ∷ newline ∷ rest)) hk
      ∙ ap (parse_node nested next obj key) (
          skip_ws-space 32 (quote ∷ val ++ quote ∷ newline ∷ rest) refl
          ∙ solid quote (val ++ quote ∷ newline ∷ rest) refl refl)
      ∙ ap (proceed (λ v left. next (assign key (text v) obj) left))
          (parse_string_lem val (newline ∷ rest) hv)

  -- A nested object on the lines below.
  entry_block :
      (indent : ℕ) (rest : List ℕ)
      → All Plain key
      → parse_entry nested next obj
          (quote ∷ key ++ quote ∷ newline ∷ (replicate indent 9 ++ opening ∷ rest))
        ≡ proceed_parsed
            (λ inner left. next (assign key (object inner) obj) left)
            (nested empty rest)
  unfolding parse_node is_space
  entry_block indent rest hk =
      key_lem (newline ∷ (replicate indent 9 ++ opening ∷ rest)) hk
      ∙ ap (parse_node nested next obj key) (indented indent opening rest refl refl)

line_lem :
    (indent : ℕ) (key val rest : List ℕ)
    → line indent key val ++ rest
      ≡ replicate indent 9 ++ quote ∷ (key ++ quote ∷ 32 ∷ quote ∷ (val ++ quote ∷ newline ∷ rest))
unfolding line
line_lem indent key val rest = simp append_assoc

pub line_long :
    (indent : ℕ) (key val rest : List ℕ) → suc (length rest) ≤ length (line indent key val ++ rest)
line_long indent key val rest = omega (
  arith,
  ap length (line_lem indent key val rest),
  length-append (replicate indent 9)
      (quote ∷ (key ++ quote ∷ 32 ∷ quote ∷ (val ++ quote ∷ newline ∷ rest))),
  length-append key (quote ∷ 32 ∷ quote ∷ (val ++ quote ∷ newline ∷ rest)),
  length-append val (quote ∷ newline ∷ rest),
)

-- The lines in front of a nested object.
abbrev pub block : ℕ → List ℕ → List ℕ → List ℕ
block indent key rest =
    (replicate indent 9 ++ quote ∷ key ++ quote ∷ newline ∷ [])
    ++ (replicate indent 9 ++ opening ∷ newline ∷ [])
    ++ rest

block_lem :
    (indent : ℕ) (key rest : List ℕ)
    → block indent key rest
      ≡ replicate indent 9
        ++ quote ∷ (key ++ quote ∷ newline ∷ (replicate indent 9 ++ opening ∷ newline ∷ rest))
block_lem indent key rest = simp append_assoc

pub block_long :
    (indent : ℕ) (key rest : List ℕ) → suc (length rest) ≤ length (block indent key rest)
block_long indent key rest = omega (
  arith,
  ap length (block_lem indent key rest),
  length-append (replicate indent 9)
      (quote ∷ (key ++ quote ∷ newline ∷ (replicate indent 9 ++ opening ∷ newline ∷ rest))),
  length-append key (quote ∷ newline ∷ (replicate indent 9 ++ opening ∷ newline ∷ rest)),
  length-append (replicate indent 9) (opening ∷ newline ∷ rest),
)

-- A line and a block in each of the two loops, and their ends.
module _ (n : ℕ) (built : Object) (indent : ℕ) (key : List ℕ) (hk : All Plain key) where
  pub member_line :
      (val rest : List ℕ)
      → All Plain val
      → parse_text_object (suc n) built (newline ∷ (line indent key val ++ rest))
        ≡ parse_text_object n (assign key (text val) built) (newline ∷ rest)
  unfolding parse_text_object parse_member is_space
  member_line val rest hv =
      ap (λ t. parse_member (parse_text_object n) built (skip_ws (newline ∷ t)))
        (line_lem indent key val rest)
      ∙ ap (parse_member (parse_text_object n) built) (indented indent quote _ refl refl)
      ∙ entry_line (parse_text_object n) (parse_text_object n) built key val rest hk hv

  pub member_block :
      (rest : List ℕ)
      → parse_text_object (suc n) built (newline ∷ block indent key rest)
        ≡ proceed_parsed
            (λ inner left. parse_text_object n (assign key (object inner) built) left)
            (parse_text_object n empty (newline ∷ rest))
  unfolding parse_text_object parse_member is_space
  member_block rest =
      ap (λ t. parse_member (parse_text_object n) built (skip_ws (newline ∷ t)))
        (block_lem indent key rest)
      ∙ ap (parse_member (parse_text_object n) built) (indented indent quote _ refl refl)
      ∙ entry_block (parse_text_object n) (parse_text_object n) built key indent (newline ∷ rest) hk

  pub root_line :
      (val rest : List ℕ)
      → All Plain val
      → parse_root (suc n) built (newline ∷ (line indent key val ++ rest))
        ≡ parse_root n (assign key (text val) built) (newline ∷ rest)
  unfolding parse_root parse_top is_space
  root_line val rest hv =
      ap (λ t. parse_top (parse_text_object n) (parse_root n) built (skip_ws (newline ∷ t)))
        (line_lem indent key val rest)
      ∙ ap (parse_top (parse_text_object n) (parse_root n) built)
          (indented indent quote _ refl refl)
      ∙ entry_line (parse_text_object n) (parse_root n) built key val rest hk hv

  pub root_block :
      (rest : List ℕ)
      → parse_root (suc n) built (newline ∷ block indent key rest)
        ≡ proceed_parsed
            (λ inner left. parse_root n (assign key (object inner) built) left)
            (parse_text_object n empty (newline ∷ rest))
  unfolding parse_root parse_top is_space
  root_block rest =
      ap (λ t. parse_top (parse_text_object n) (parse_root n) built (skip_ws (newline ∷ t)))
        (block_lem indent key rest)
      ∙ ap (parse_top (parse_text_object n) (parse_root n) built)
          (indented indent quote _ refl refl)
      ∙ entry_block (parse_text_object n) (parse_root n) built key indent (newline ∷ rest) hk

pub member_end :
    (n : ℕ) (built : Object) (indent : ℕ) (rest : List ℕ)
    → parse_text_object (suc n) built (newline ∷ (replicate indent 9 ++ closing ∷ rest))
      ≡ some (ok (built, rest))
unfolding parse_text_object parse_member is_space
member_end n built indent rest =
    ap (parse_member (parse_text_object n) built) (indented indent closing rest refl refl)
