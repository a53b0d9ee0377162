-- ===== src/Commands/Router/Laws.antt =====
-- Which requests reach which handler of include/steamclient/routing/commands/router.hpp.
use steam_min_cpp.Prelude.{
  ℕ, ◌<◌, ◌≡◌, ◌≢◌, refl, ap, ◌∙◌, true, Option, none, some, List, [], ◌∷◌, ◌++◌, length, get_or,
  arith, lt→ltb, inl, inr, Bool-cases,
}
use steam_min_cpp.Prelude.Results.{ok}
use steam_min_cpp.Dispatch.{set_at}
use steam_min_cpp.Dispatch.Laws.{length-set_at, get_or-set_at, get_or-set_at_other}
use steam_min_cpp.Commands.Router.{
  max_requests, index_of, is_known, request_id, RequestRouter, register, handler_of,
}

index_of_last : (t : ℕ) (ids : List ℕ) → index_of t (ids ++ t ∷ []) ≡ index_of t ids
unfolding index_of
index_of_last t [] = ground arith
index_of_last t (u ∷ ids) = ground (arith, index_of_last t ids)

is_known_last : (t : ℕ) (ids : List ℕ) → is_known t (ids ++ t ∷ []) ≡ true
unfolding is_known
is_known_last t [] = ground arith
is_known_last t (u ∷ ids) = ground (arith, is_known_last t ids)

index_of_other :
    (t u : ℕ) (ids : List ℕ) → is_known u ids ≡ true → index_of u (ids ++ t ∷ []) ≡ index_of u ids
unfolding index_of is_known
index_of_other t u [] h = cc
index_of_other t u (v ∷ ids) h = ground (arith, index_of_other t u ids)

is_known_other :
    (t u : ℕ) (ids : List ℕ) → is_known u ids ≡ true → is_known u (ids ++ t ∷ []) ≡ true
unfolding is_known
is_known_other t u [] h = cc
is_known_other t u (v ∷ ids) h = ground (arith, is_known_other t u ids)

index_of_apart :
    (t u : ℕ) (ids : List ℕ) → is_known u ids ≡ true → u ≢ t → index_of t ids ≢ index_of u ids
unfolding index_of is_known
index_of_apart t u [] h d = cc
index_of_apart t u (v ∷ ids) h d = ground (arith, index_of_apart t u ids)

-- The ids behind a call of `request_id`.
module _ (t : ℕ) (ids : List ℕ) where
  abbrev ids' : List ℕ
  unfolding request_id
  ids' = (request_id t ids).1

  id_kept : index_of t ids' ≡ index_of t ids
  unfolding request_id
  id_kept = elim (Bool-cases (is_known t ids)) [
    | inl e ↦ rw e refl
    | inr e ↦ rw e (index_of_last t ids)
  ]

  id_known : is_known t ids' ≡ true
  unfolding request_id
  id_known = elim (Bool-cases (is_known t ids)) [
    | inl e ↦ rw e e
    | inr e ↦ rw e (is_known_last t ids)
  ]

  module _ (u : ℕ) (known : is_known u ids ≡ true) where
    other_kept : index_of u ids' ≡ index_of u ids
    unfolding request_id
    other_kept = elim (Bool-cases (is_known t ids)) [
      | inl e ↦ rw e refl
      | inr e ↦ rw e (index_of_other t u ids known)
    ]

    other_known : is_known u ids' ≡ true
    unfolding request_id
    other_known = elim (Bool-cases (is_known t ids)) [
      | inl e ↦ rw e known
      | inr e ↦ rw e (is_known_other t u ids known)
    ]

module _ {Fn : Type 0} where
  -- What a call for a known type finds.
  found :
      (router : RequestRouter Fn) (t : ℕ)
      → is_known t router.ids ≡ true
      → index_of t router.ids < length router.table
      → handler_of t router ≡ ok (get_or router.table (index_of t router.ids) none, router)
  unfolding handler_of request_id
  found router t known h = rw (known, lt→ltb (index_of t router.ids) (length router.table) h) refl

  -- After a handler was registered for a type of requests, a request of that type reaches it, and one
  -- of another type that is known reaches the handler that it reached before, if there was one: as
  -- long as the numbers of both types are below MAX_REQUESTS.
  pub handler_of-register :
      (router : RequestRouter Fn) (t u : ℕ) (fn : Fn)
      → length router.table ≡ max_requests
      → index_of t router.ids < max_requests
      → index_of u router.ids < max_requests
      → is_known u router.ids ≡ true
      → u ≢ t
      → (after : RequestRouter Fn) × (handler : Option Fn) × (register t fn router ≡ ok after)
        × (length after.table ≡ max_requests)
        × (handler_of t after ≡ ok (some fn, after))
        × (handler_of u router ≡ ok (handler, router))
        × (handler_of u after ≡ ok (handler, after))
  unfolding register request_id
  handler_of-register router t u fn size below_t below_u known apart = (
    after,
    get_or router.table (index_of u ids) none,
    rw (lt→ltb id (length router.table) (omega arith)) refl,
    same_size,
    found after t (id_known t ids) (omega (arith, id_kept t ids, same_size))
        ∙ ap (λ (h : Option Fn). ok (h, after))
            (ap (λ (n : ℕ). get_or after.table n none) (id_kept t ids)
              ∙ get_or-set_at router.table id (some fn) none (omega arith)),
    found router u known (omega arith),
    found after u (other_known t ids u known) (omega (arith, other_kept t ids u known, same_size))
        ∙ ap (λ (h : Option Fn). ok (h, after))
            (ap (λ (n : ℕ). get_or after.table n none) (other_kept t ids u known)
              ∙ get_or-set_at_other router.table id (index_of u ids) (some fn) none
                  (index_of_apart t u ids known apart)),
  )
    where
      ids : List ℕ
      ids = router.ids

      id : ℕ
      id = index_of t ids

      after : RequestRouter Fn
      after = record { ids = (request_id t ids).1; table = set_at router.table id (some fn) }

      same_size : length after.table ≡ max_requests
      same_size = length-set_at router.table id (some fn) ∙ size
