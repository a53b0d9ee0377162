-- ===== src/Enums/EMsgs/Slots.antt =====
-- The message numbers and the arrays of include/steamclient/routing/events/table.hpp.
use steam_min_cpp.Prelude.{
  ℕ, ◌≤◌, ◌≡◌, ◌≢◌, refl, sym, ◌∙◌, Bool, true, false, ◌&&◌, ◌||◌, List, [], ◌∷◌, length, leb, ◌==◌,
  arith, lt→ltb, le→not_ltb,
}
use steam_min_cpp.Prelude.Results.{undefined}
use steam_min_cpp.MsgUtil.{make_msg}
use steam_min_cpp.MsgUtil.Laws.{get_msg-make_msg}
use steam_min_cpp.Dispatch.{max_emsg, DispatchTable, proto_register, dispatch_proto}
use steam_min_cpp.Dispatch.Laws.{dispatch_undefined_iff}
use steam_min_cpp.Enums.EMsg
use steam_min_cpp.Enums.EMsgs.{enumerators}

abbrev pub is_among : ℕ → List ℕ → Bool
is_among v [] = false
is_among v (x ∷ xs) = v == x || is_among v xs

all_within : ℕ → List ℕ → Bool
all_within limit [] = true
all_within limit (x ∷ xs) = leb x limit && all_within limit xs

among-within :
    (limit v : ℕ) (xs : List ℕ) → all_within limit xs ≡ true → is_among v xs ≡ true → v ≤ limit
unfolding all_within
among-within limit v [] h k = cc
among-within limit v (x ∷ xs) h k = ground (arith, among-within limit v xs)

enumerators_within : all_within max_emsg enumerators ≡ true
unfolding all_within
enumerators_within = refl

-- The enumerators of EMsg and the arrays of a full table: one enumerator, ClientPendingGameLaunchResponse,
-- has the number MAX_EMSG, so that no handler can be registered for it and a packet of it is dispatched
-- out of bounds; a handler can be registered for every other.
pub enumerators_slots :
    {ProtoHandlerFn MsgHandlerFn : Type 0} (table : DispatchTable ProtoHandlerFn MsgHandlerFn)
    (fn : ProtoHandlerFn) (emsg : ℕ)
    → length table.proto ≡ max_emsg
    → length table.msg ≡ max_emsg
    → is_among emsg enumerators ≡ true
    → (is_among EMsg.client_pending_game_launch_response enumerators ≡ true)
      × ((emsg ≡ EMsg.client_pending_game_launch_response)
          → (proto_register ProtoHandlerFn MsgHandlerFn emsg fn table ≡ undefined)
            × (dispatch_proto table (make_msg emsg true) ≡ undefined))
      × ((emsg ≢ EMsg.client_pending_game_launch_response)
          → (proto_register ProtoHandlerFn MsgHandlerFn emsg fn table ≢ undefined)
            × (dispatch_proto table (make_msg emsg true) ≢ undefined))
unfolding proto_register
enumerators_slots table fn emsg p m among =
    let small = among-within max_emsg emsg enumerators enumerators_within among in
    let (fits, number, flag) = get_msg-make_msg emsg true (omega arith) in
    let (at_end, other) = dispatch_undefined_iff table (make_msg emsg true) p m in
    (
      refl,
      λ e. (rw (le→not_ltb (length table.proto) emsg (omega arith)) refl, at_end.1 (number ∙ e)),
      λ d. (
        rw (lt→ltb emsg (length table.proto) (omega arith)) λ u. cc u,
        λ u. d (sym number ∙ at_end.0 u),
      ),
    )
