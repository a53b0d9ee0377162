-- ===== src/Vdf/Keys.antt =====
-- Objects whose entries have different keys, as those of an `unordered_map`
-- (include/steamclient/utilities/vdf.hpp).
use steam_min_cpp.Prelude.{ℕ, ◌≡◌, refl, sym, ap, ◌∙◌, subst, false, List, [], ◌∷◌, arith}
use steam_min_cpp.Vdf.{
  Object, VdfNode, empty, entry, text, int32, uint64, float32, object, same_key, assign,
}
use steam_min_cpp.Vdf.RoundTrip.{assign_all}

abbrev pub Absent : List ℕ → Object → Type 0
Absent key empty = Unit {0}
Absent key (entry k node rest) = (same_key key k ≡ false) × Absent key rest

-- The keys of an object are different, and those of the nested objects.
unfoldable pub IsUnique : Object → Type 0
IsUnique empty = Unit {0}
IsUnique (entry key (object inner) rest) = Absent key rest × IsUnique inner × IsUnique rest
IsUnique (entry key (text s) rest) = Absent key rest × IsUnique rest
IsUnique (entry key (int32 n) rest) = Absent key rest × IsUnique rest
IsUnique (entry key (uint64 n) rest) = Absent key rest × IsUnique rest
IsUnique (entry key (float32 n) rest) = Absent key rest × IsUnique rest

join : Object → Object → Object
join empty obj = obj
join (entry key node rest) obj = entry key node (join rest obj)

join-empty : (obj : Object) → join obj empty ≡ obj
unfolding join
join-empty empty = refl
join-empty (entry key node rest) = ap (entry key node) (join-empty rest)

join_assoc : (a b c : Object) → join (join a b) c ≡ join a (join b c)
unfolding join
join_assoc empty b c = refl
join_assoc (entry key node rest) b c = ap (entry key node) (join_assoc rest b c)

same_key_sym : (a b : List ℕ) → same_key a b ≡ same_key b a
unfolding same_key
same_key_sym [] [] = refl
same_key_sym [] (y ∷ b) = refl
same_key_sym (x ∷ a) [] = refl
same_key_sym (x ∷ a) (y ∷ b) = ground (arith, same_key_sym a b)

assign-Absent :
    (key : List ℕ) (node : VdfNode) (obj : Object)
    → Absent key obj
    → assign key node obj ≡ join obj (entry key node empty)
unfolding assign join
assign-Absent key node empty h = refl
assign-Absent key node (entry k old rest) (hk, h) =
    rw hk (ap (entry k old) (assign-Absent key node rest h))

-- No key of the first object is one of the second.
Apart : Object → Object → Type 0
Apart empty obj = Unit {0}
Apart (entry key node rest) obj = Absent key obj × Apart rest obj

Absent-join :
    (key k : List ℕ) (node : VdfNode) (obj : Object)
    → same_key key k ≡ false
    → Absent key obj
    → Absent key (join obj (entry k node empty))
unfolding join
Absent-join key k node empty hk h = (hk, tt)
Absent-join key k node (entry l old rest) hk (hl, h) = (hl, Absent-join key k node rest hk h)

Apart-join :
    (obj built : Object) (key : List ℕ) (node : VdfNode)
    → Absent key obj
    → Apart obj built
    → Apart obj (join built (entry key node empty))
unfolding Apart
Apart-join empty built key node h a = tt
Apart-join (entry k old rest) built key node (hk, h) (ak, a) =
    (Absent-join k key node built (same_key_sym k key ∙ hk) ak, Apart-join rest built key node h a)

-- What an entry adds, in front of what the rest adds.
add_entry :
    (key : List ℕ) (node : VdfNode) (rest built : Object)
    → Absent key built
    → join (assign key node built) rest ≡ join built (entry key node rest)
unfolding join
add_entry key node rest built h =
    ap (λ o. join o rest) (assign-Absent key node built h)
    ∙ join_assoc built (entry key node empty) rest

rest_Apart :
    (key : List ℕ) (node : VdfNode) (rest built : Object)
    → Absent key rest
    → Absent key built
    → Apart rest built
    → Apart rest (assign key node built)
rest_Apart key node rest built h hb a =
    subst (Apart rest) (sym (assign-Absent key node built hb)) (Apart-join rest built key node h a)

Apart-empty : (obj : Object) → Apart obj empty
unfolding Apart
Apart-empty empty = tt
Apart-empty (entry key node rest) = (tt, Apart-empty rest)

assign_all-join :
    (obj built : Object) → IsUnique obj → Apart obj built → assign_all obj built ≡ join built obj
unfolding join Apart IsUnique
assign_all-join empty built u a = sym (join-empty built)
assign_all-join (entry key (object inner) rest) built (h, v, u) (hb, a) =
    ap (λ i. assign_all rest (assign key (object i) built))
      (assign_all-join inner empty v (Apart-empty inner))
    ∙ assign_all-join rest (assign key (object inner) built) u (rest_Apart key _ rest built h hb a)
    ∙ add_entry key (object inner) rest built hb
assign_all-join (entry key (text s) rest) built (h, u) (hb, a) =
    assign_all-join rest (assign key (text s) built) u (rest_Apart key _ rest built h hb a)
    ∙ add_entry key (text s) rest built hb
assign_all-join (entry key (int32 n) rest) built (h, u) (hb, a) =
    assign_all-join rest (assign key (int32 n) built) u (rest_Apart key _ rest built h hb a)
    ∙ add_entry key (int32 n) rest built hb
assign_all-join (entry key (uint64 n) rest) built (h, u) (hb, a) =
    assign_all-join rest (assign key (uint64 n) built) u (rest_Apart key _ rest built h hb a)
    ∙ add_entry key (uint64 n) rest built hb
assign_all-join (entry key (float32 n) rest) built (h, u) (hb, a) =
    assign_all-join rest (assign key (float32 n) built) u (rest_Apart key _ rest built h hb a)
    ∙ add_entry key (float32 n) rest built hb

-- All entries of an object, assigned to the empty one, are the object.
pub assign_all-IsUnique : (obj : Object) → IsUnique obj → assign_all obj empty ≡ obj
unfolding join
assign_all-IsUnique obj u = assign_all-join obj empty u (Apart-empty obj)
