-- ===== src/Commands/Router.antt =====
-- include/steamclient/routing/commands/{router,register}.hpp and `CMClient::execute`: the handlers of
-- commands by the type of the request. A type is a number; `ids` holds the types that `request_id` has
-- been called for, in that order.
pub mod Laws
use steam_min_cpp.Prelude.{
  ℕ, zero, suc, ◌+◌, ◌≤◌, ◌<◌, ◌≡◌, ◌≢◌, refl, sym, ap, ◌∙◌, Bool, true, false, Option, none, some,
  List, [], ◌∷◌, ◌++◌, length, get_or, replicate, ltb, ◌==◌, if◌then◌else◌, arith, lt→ltb,
  length-append,
}
use steam_min_cpp.Prelude.Results.{Result, ok, undefined}
use steam_min_cpp.Dispatch.{set_at}

abbrev pub max_requests : ℕ
max_requests = 512

-- The place of a type, or the length of the list.
unfoldable pub index_of : ℕ → List ℕ → ℕ
index_of t [] = 0
index_of t (u ∷ ids) = let rest = suc (index_of t ids) in if t == u then 0 else rest

unfoldable pub is_known : ℕ → List ℕ → Bool
is_known t [] = false
is_known t (u ∷ ids) = let rest = is_known t ids in if t == u then true else rest

-- `request_id<T>()`: the static of the first call keeps the next number.
unfoldable pub request_id : ℕ → List ℕ → ℕ × List ℕ
unfolding index_of is_known
request_id t ids = (index_of t ids, if is_known t ids then ids else ids ++ t ∷ [])

module _ (Fn : Type 0) where
  pub record RequestRouter : Type 0 where
    pub ids : List ℕ
    pub table : List (Option Fn)

  unfoldable pub new : RequestRouter
  new = record { ids = []; table = replicate max_requests none }

module _ {Fn : Type 0} where
  -- `RequestRegister<Request, Fn>`; the id has to be below MAX_REQUESTS.
  unfoldable pub register : ℕ → Fn → RequestRouter Fn → Result (RequestRouter Fn)
  unfolding request_id
  register t fn router =
      let (id, ids) = request_id t router.ids in
      if ltb id (length router.table)
      then ok (record { ids = ids; table = set_at router.table id (some fn) })
      else undefined

  -- `execute` up to the call: the handler, if there is one.
  unfoldable pub handler_of : ℕ → RequestRouter Fn → Result (Option Fn × RequestRouter Fn)
  unfolding request_id
  handler_of t router =
      let (id, ids) = request_id t router.ids in
      if ltb id (length router.table)
      then ok (get_or router.table id none, record router { ids = ids })
      else undefined
