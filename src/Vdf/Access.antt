-- ===== src/Vdf/Access.antt =====
-- Assignment and lookup in the objects of include/steamclient/utilities/vdf.hpp.
use steam_min_cpp.Prelude.{
  ℕ, ◌≡◌, ◌≢◌, refl, sym, ap, ◌∙◌, true, false, Option, some, List, [], ◌∷◌, if◌then◌else◌, arith,
  Bool-cases, inl, inr,
}
use steam_min_cpp.Vdf.{Object, VdfNode, empty, entry, same_key, assign, find}

same_key_refl : (key : List ℕ) → same_key key key ≡ true
unfolding same_key
same_key_refl [] = refl
same_key_refl (x ∷ key) = ground (arith, same_key_refl key)

same_key_sound : (k l : List ℕ) → same_key k l ≡ true → k ≡ l
unfolding same_key
same_key_sound [] [] e = refl
same_key_sound [] (y ∷ l) e = cc
same_key_sound (x ∷ k) [] e = cc
same_key_sound (x ∷ k) (y ∷ l) e = ground (arith, same_key_sound k l)

same_key_other : (k l : List ℕ) → k ≢ l → same_key k l ≡ false
same_key_other k l h = elim (Bool-cases (same_key k l)) [
  | inl e ↦ absurd (h (same_key_sound k l e))
  | inr e ↦ e
]

find-assign_same :
    (key : List ℕ) (node : VdfNode) (obj : Object) → find key (assign key node obj) ≡ some node
unfolding find assign
find-assign_same key node empty = rw (same_key_refl key) refl
find-assign_same key node (entry k old rest) = elim (Bool-cases (same_key key k)) [
  | inl e ↦ rw (e, find, e) refl
  | inr e ↦ rw (e, find, e) (find-assign_same key node rest)
]

find-assign_other :
    (key other : List ℕ) (node : VdfNode) (obj : Object)
    → other ≢ key
    → find other (assign key node obj) ≡ find other obj
unfolding find assign
find-assign_other key other node empty h = rw (same_key_other other key h) refl
find-assign_other key other node (entry k old rest) h = elim (Bool-cases (same_key key k)) [
  | inl e ↦
      rw (e, find, same_key_other other k (λ same. h (same ∙ sym (same_key_sound key k e)))) refl
  | inr e ↦
      rw (e, find)
        (ap (λ (t : Option VdfNode). if same_key other k then some old else t)
          (find-assign_other key other node rest h))
]

-- After `obj[key].value = node` the key is found with that node, and every other key is found, or not
-- found, as before.
pub find-assign :
    (key other : List ℕ) (node : VdfNode) (obj : Object)
    → (find key (assign key node obj) ≡ some node)
      × ((other ≢ key) → find other (assign key node obj) ≡ find other obj)
find-assign key other node obj =
    (find-assign_same key node obj, find-assign_other key other node obj)
