-- ===== src/Vdf/Text/Skips.antt =====
-- `skip_ws` of src/utils/vdf/vdf_text.cpp on any input.
use steam_min_cpp.Prelude.{
  ℕ, zero, suc, ◌≤◌, ◌<◌, ◌≡◌, refl, sym, ap, ◌∙◌, Bool, true, false, ◌||◌, List, [], ◌∷◌, ◌++◌,
  All, length, arith, inl, inr, Bool-cases, ◌==◌,
}
use steam_min_cpp.Vdf.Text.{
  is_space, skip_spaces, skip_line, at_comment, skip_within, skip_ws, slash,
}

-- A blank or a comment is next.
abbrev pub at_blank : List ℕ → Bool
unfolding at_comment
at_blank [] = false
at_blank (c ∷ input) = is_space c || at_comment (c ∷ input)

skip_spaces-shorter : (input : List ℕ) → length (skip_spaces input) ≤ length input
unfolding skip_spaces
skip_spaces-shorter [] = omega arith
skip_spaces-shorter (c ∷ input) = ground (arith, skip_spaces-shorter input)

skip_line-shorter : (input : List ℕ) → length (skip_line input) ≤ length input
unfolding skip_line
skip_line-shorter [] = omega arith
skip_line-shorter (c ∷ input) = ground (arith, skip_line-shorter input)

skip_comment-shorter :
    (input : List ℕ) → at_comment input ≡ true → length (skip_line input) < length input
unfolding at_comment skip_line
skip_comment-shorter [] h = cc
skip_comment-shorter (c ∷ []) h = cc
skip_comment-shorter (c ∷ d ∷ input) h = ground (arith, skip_line-shorter input)

pub skip_within-shorter : (n : ℕ) (input : List ℕ) → length (skip_within n input) ≤ length input
unfolding skip_within
skip_within-shorter zero input = omega arith
skip_within-shorter (suc n) input = ground (
  arith,
  skip_spaces-shorter input,
  skip_line-shorter (skip_spaces input),
  skip_within-shorter n (skip_line (skip_spaces input)),
)

pub skip_ws-shorter : (input : List ℕ) → length (skip_ws input) ≤ length input
unfolding skip_ws
skip_ws-shorter input = skip_within-shorter (length input) input

-- A round ends behind the white space, or goes on behind the comment there.
skip_within-comment :
    (n : ℕ) (input : List ℕ)
    → at_comment (skip_spaces input) ≡ true
    → skip_within (suc n) input ≡ skip_within n (skip_line (skip_spaces input))
unfolding skip_within
skip_within-comment n input e =
    ap
      (λ b. elim b [
        | true ↦ skip_within n (skip_line (skip_spaces input))
        | false ↦ skip_spaces input
      ])
      e

skip_within-end :
    (n : ℕ) (input : List ℕ)
    → at_comment (skip_spaces input) ≡ false
    → skip_within (suc n) input ≡ skip_spaces input
unfolding skip_within
skip_within-end n input e =
    ap
      (λ b. elim b [
        | true ↦ skip_within n (skip_line (skip_spaces input))
        | false ↦ skip_spaces input
      ])
      e

behind_shorter :
    (n : ℕ) (input : List ℕ)
    → length input ≤ suc n
    → at_comment (skip_spaces input) ≡ true
    → length (skip_line (skip_spaces input)) ≤ n
behind_shorter n input h e =
    omega (arith, skip_spaces-shorter input, skip_comment-shorter (skip_spaces input) e)

-- The bound does not matter once it is the length.
pub enough :
    (n m : ℕ) (input : List ℕ)
    → length input ≤ n
    → length input ≤ m
    → skip_within n input ≡ skip_within m input
unfolding skip_within skip_spaces at_comment
enough zero zero input h k = refl
enough zero (suc m) [] h k = refl
enough zero (suc m) (c ∷ input) h k = absurd (omega arith)
enough (suc n) zero [] h k = refl
enough (suc n) zero (c ∷ input) h k = absurd (omega arith)
enough (suc n) (suc m) input h k = elim (Bool-cases (at_comment (skip_spaces input))) [
  | inl e ↦
      skip_within-comment n input e
      ∙ enough n m (skip_line (skip_spaces input)) (behind_shorter n input h e)
          (behind_shorter m input k e)
      ∙ sym (skip_within-comment m input e)
  | inr e ↦ skip_within-end n input e ∙ sym (skip_within-end m input e)
]

-- Behind the blanks there is none.
skip_spaces-stops :
    (input : List ℕ) → at_comment (skip_spaces input) ≡ false → at_blank (skip_spaces input) ≡ false
unfolding skip_spaces at_blank
skip_spaces-stops [] h = refl
skip_spaces-stops (c ∷ input) h = ground (arith, skip_spaces-stops input)

skip_within-stops :
    (n : ℕ) (input : List ℕ) → length input ≤ n → at_blank (skip_within n input) ≡ false
unfolding skip_within at_blank
skip_within-stops zero [] h = refl
skip_within-stops zero (c ∷ input) h = absurd (omega arith)
skip_within-stops (suc n) input h = elim (Bool-cases (at_comment (skip_spaces input))) [
  | inl e ↦
      ap at_blank (skip_within-comment n input e)
      ∙ skip_within-stops n (skip_line (skip_spaces input)) (behind_shorter n input h e)
  | inr e ↦ ap at_blank (skip_within-end n input e) ∙ skip_spaces-stops input e
]

-- On every input `skip_ws` stops before a character that is no white space and does not open a
-- comment, or at the end.
pub skip_ws-stops : (input : List ℕ) → at_blank (skip_ws input) ≡ false
unfolding skip_ws
skip_ws-stops input = skip_within-stops (length input) input (omega arith)

-- Before such a character nothing is skipped.
skip_within-none : (n : ℕ) (input : List ℕ) → at_blank input ≡ false → skip_within n input ≡ input
unfolding skip_within skip_spaces
skip_within-none zero input h = refl
skip_within-none (suc n) [] h = refl
skip_within-none (suc n) (c ∷ input) h = ground arith

pub skip_ws-none : (input : List ℕ) → at_blank input ≡ false → skip_ws input ≡ input
unfolding skip_ws
skip_ws-none input h = skip_within-none (length input) input h

skip_within-space :
    (n c : ℕ) (input : List ℕ)
    → is_space c ≡ true
    → skip_within (suc n) (c ∷ input) ≡ skip_within (suc n) input
unfolding skip_within skip_spaces
skip_within-space n c input h = ground arith

pub skip_ws-space :
    (c : ℕ) (input : List ℕ) → is_space c ≡ true → skip_ws (c ∷ input) ≡ skip_ws input
unfolding skip_ws
skip_ws-space c input h =
    skip_within-space (length input) c input h
    ∙ enough (suc (length input)) (length input) input (omega arith) (omega arith)

pub skip_ws-spaces :
    (blanks input : List ℕ)
    → All (λ c. is_space c ≡ true) blanks
    → skip_ws (blanks ++ input) ≡ skip_ws input
skip_ws-spaces [] input h = refl
skip_ws-spaces (c ∷ blanks) input (hc, h) =
    skip_ws-space c (blanks ++ input) hc ∙ skip_ws-spaces blanks input h

pub at_blank_solid :
    (c : ℕ) (input : List ℕ)
    → is_space c ≡ false
    → (c == slash) ≡ false
    → at_blank (c ∷ input) ≡ false
unfolding at_blank at_comment
at_blank_solid c [] h k = ground arith
at_blank_solid c (d ∷ input) h k = ground arith
