-- ===== src/Prelude/Results.antt =====
-- How a call ends: with a value, with an exception (its text), or in undefined behaviour.
use Prim.Native.String.{String}
use mathlib.Core.Path.{◌≡◌, ap}

pub data Result {ℓ} (A : Type ℓ) : Type ℓ where
  ok : A → Result A
  throws : String → Result A
  undefined : Result A

infixl 5 ◌>>=◌
unfoldable pub ◌>>=◌ {ℓ κ} : {A : Type ℓ} {B : Type κ} → Result A → (A → Result B) → Result B
◌>>=◌ (ok a) f = f a
◌>>=◌ (throws e) f = throws e
◌>>=◌ undefined f = undefined

pub ok_injective {ℓ} : {A : Type ℓ} (a b : A) → ok a ≡ ok b → a ≡ b
ok_injective a b e = ap (λ r. elim r [ ok x ↦ x | throws message ↦ a | undefined ↦ a ]) e
