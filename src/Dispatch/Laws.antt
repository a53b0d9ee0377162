-- ===== src/Dispatch/Laws.antt =====
-- Which packets reach which handler of src/routing/events/dispatcher.cpp.
use steam_min_cpp.Prelude.{
  ℕ, zero, suc, ◌<◌, ◌≡◌, ◌≢◌, ◌↔◌, refl, sym, ap, ◌∙◌, Option, none, some, List, [], ◌∷◌, length,
  get_or, arith, le→leb, lt→ltb, le→not_ltb, lt→not_leb, dec_lt,
}
use steam_min_cpp.Prelude.Results.{ok, undefined}
use steam_min_cpp.MsgUtil.{get_msg}
use steam_min_cpp.Dispatch.{
  max_emsg, set_at, calls, ignores, DispatchTable, proto_register, react, dispatch_id,
  dispatch_proto, dispatch_msg,
}

module _ {A : Type 0} where
  pub length-set_at : (xs : List A) (i : ℕ) (a : A) → length (set_at xs i a) ≡ length xs
  unfolding set_at
  length-set_at [] i a = refl
  length-set_at (x ∷ xs) zero a = refl
  length-set_at (x ∷ xs) (suc i) a = ap suc (length-set_at xs i a)

  pub get_or-set_at :
      (xs : List A) (i : ℕ) (a d : A) → i < length xs → get_or (set_at xs i a) i d ≡ a
  unfolding set_at
  get_or-set_at [] i a d h = absurd (omega arith)
  get_or-set_at (x ∷ xs) zero a d h = refl
  get_or-set_at (x ∷ xs) (suc i) a d h = get_or-set_at xs i a d (omega arith)

  pub get_or-set_at_other :
      (xs : List A) (i j : ℕ) (a d : A) → (i ≡ j → ⊥) → get_or (set_at xs i a) j d ≡ get_or xs j d
  unfolding set_at
  get_or-set_at_other [] i j a d h = refl
  get_or-set_at_other (x ∷ xs) zero zero a d h = absurd (h refl)
  get_or-set_at_other (x ∷ xs) zero (suc j) a d h = refl
  get_or-set_at_other (x ∷ xs) (suc i) zero a d h = refl
  get_or-set_at_other (x ∷ xs) (suc i) (suc j) a d h =
      get_or-set_at_other xs i j a d λ e. h (ap suc e)

module _ {Fn : Type 0} (handlers : List (Option Fn)) (size : length handlers ≡ max_emsg)
    (id : ℕ) where
  inside : id < max_emsg → dispatch_id handlers id ≡ ok (react id (get_or handlers id none))
  unfolding dispatch_id
  inside h = rw (le→leb id max_emsg (omega arith), lt→ltb id (length handlers) (omega arith)) refl

  at_end : id ≡ max_emsg → dispatch_id handlers id ≡ undefined
  unfolding dispatch_id
  at_end h =
      rw (le→leb id max_emsg (omega arith), le→not_ltb (length handlers) id (omega arith)) refl

  outside : max_emsg < id → dispatch_id handlers id ≡ ok ignores
  unfolding dispatch_id
  outside h = rw (lt→not_leb max_emsg id (omega arith)) refl

  undefined_at : dispatch_id handlers id ≡ undefined → id ≡ max_emsg
  undefined_at e = elim (dec_lt id max_emsg) [
    | yes h ↦ absurd (not_inside (inside h))
    | no h ↦ elim (dec_lt max_emsg id) [
      | yes g ↦ absurd (not_outside (outside g))
      | no g ↦ omega arith
    ]
  ]
    where
      not_inside : dispatch_id handlers id ≡ ok (react id (get_or handlers id none)) → ⊥
      not_inside d = cc (sym d ∙ e)

      not_outside : dispatch_id handlers id ≡ ok ignores → ⊥
      not_outside d = cc (sym d ∙ e)

-- For a table of two full arrays, `dispatch_proto` reads out of bounds exactly for the message number
-- MAX_EMSG, and `dispatch_msg` for that type: the guard lets one number too many pass.
pub dispatch_undefined_iff :
    {ProtoHandlerFn MsgHandlerFn : Type 0} (table : DispatchTable ProtoHandlerFn MsgHandlerFn)
    (msg_type : ℕ)
    → length table.proto ≡ max_emsg
    → length table.msg ≡ max_emsg
    → ((dispatch_proto table msg_type ≡ undefined) ↔ (get_msg msg_type ≡ max_emsg))
      × ((dispatch_msg table msg_type ≡ undefined) ↔ (msg_type ≡ max_emsg))
unfolding dispatch_proto dispatch_msg
dispatch_undefined_iff table msg_type p m = (
  (undefined_at table.proto p (get_msg msg_type), at_end table.proto p (get_msg msg_type)),
  (undefined_at table.msg m msg_type, at_end table.msg m msg_type),
)

-- After a handler was registered for a number below MAX_EMSG, a packet of that number is dispatched
-- to it, and packets of other numbers below MAX_EMSG as before.
pub dispatch_proto-proto_register :
    {ProtoHandlerFn MsgHandlerFn : Type 0} (table : DispatchTable ProtoHandlerFn MsgHandlerFn)
    (emsg : ℕ) (fn : ProtoHandlerFn) (msg_type : ℕ)
    → length table.proto ≡ max_emsg
    → emsg < max_emsg
    → get_msg msg_type < max_emsg
    → (after : DispatchTable ProtoHandlerFn MsgHandlerFn) × (proto_register ProtoHandlerFn
          MsgHandlerFn emsg fn table
        ≡ ok after)
      × (length after.proto ≡ max_emsg)
      × ((get_msg msg_type ≡ emsg) → dispatch_proto after msg_type ≡ ok (calls fn))
      × ((get_msg msg_type ≢ emsg) → dispatch_proto after msg_type ≡ dispatch_proto table msg_type)
unfolding proto_register dispatch_proto
dispatch_proto-proto_register {ProtoHandlerFn} {MsgHandlerFn} table emsg fn msg_type p below small =
    (
      after,
      rw (lt→ltb emsg (length table.proto) (omega arith)) refl,
      size,
      λ e.
          inside after.proto size id small
          ∙ ap (λ (t : Option ProtoHandlerFn). ok (react id t)) (here e),
      λ e.
          inside after.proto size id small
          ∙ ap (λ (t : Option ProtoHandlerFn). ok (react id t)) (other e)
          ∙ sym (inside table.proto p id small),
    )
  where
    id : ℕ
    id = get_msg msg_type

    after : DispatchTable ProtoHandlerFn MsgHandlerFn
    after = record table { proto = set_at table.proto emsg (some fn) }

    size : length after.proto ≡ max_emsg
    size = length-set_at table.proto emsg (some fn) ∙ p

    here : id ≡ emsg → get_or after.proto id none ≡ some fn
    here e = rw e (get_or-set_at table.proto emsg (some fn) none (omega arith))

    other : id ≢ emsg → get_or after.proto id none ≡ get_or table.proto id none
    other e = get_or-set_at_other table.proto emsg id (some fn) none λ h. e (sym h)
