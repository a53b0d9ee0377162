-- ===== src/Dispatch.antt =====
-- src/routing/events/dispatcher.cpp and include/steamclient/routing/events/{table,register}.hpp: the
-- tables of handlers by message number, and the dispatch of a packet.
pub mod Laws
use steam_min_cpp.Prelude.{
  ℕ, zero, suc, ◌+◌, ◌≤◌, ◌<◌, ◌≡◌, Bool, Option, none, some, List, [], ◌∷◌, length, get_or,
  replicate, ltb, leb, if◌then◌else◌,
}
use steam_min_cpp.Prelude.Results.{Result, ok, throws, undefined, ◌>>=◌}
use steam_min_cpp.MsgUtil.{get_msg}

abbrev pub max_emsg : ℕ
max_emsg = 12301

-- `arr[i] = a`, in range.
unfoldable pub set_at {ℓ} : {A : Type ℓ} → List A → ℕ → A → List A
set_at [] i a = []
set_at (x ∷ xs) zero a = a ∷ xs
set_at (x ∷ xs) (suc i) a = x ∷ set_at xs i a

-- What a dispatch does with the client: it calls a handler, emits `MsgNotImplementedEvent` with the
-- number, or nothing.
pub data Reaction (Fn : Type 0) : Type 0 where
  calls : Fn → Reaction Fn
  emits : ℕ → Reaction Fn
  ignores : Reaction Fn

module _ (ProtoHandlerFn MsgHandlerFn : Type 0) where
  -- Two `std::array`s of MAX_EMSG function pointers.
  pub record DispatchTable : Type 0 where
    pub proto : List (Option ProtoHandlerFn)
    pub msg : List (Option MsgHandlerFn)

  unfoldable pub new : DispatchTable
  new = record { proto = replicate max_emsg none; msg = replicate max_emsg none }

  -- `ProtoRegister<Msg, Fn>` and `MsgRegister<Msg, Fn>`. A number from MAX_EMSG on is out of range.
  unfoldable pub proto_register : ℕ → ProtoHandlerFn → DispatchTable → Result DispatchTable
  proto_register emsg fn table =
      if ltb emsg (length table.proto)
      then ok (record table { proto = set_at table.proto emsg (some fn) })
      else undefined

  unfoldable pub msg_register : ℕ → MsgHandlerFn → DispatchTable → Result DispatchTable
  msg_register emsg fn table =
      if ltb emsg (length table.msg)
      then ok (record table { msg = set_at table.msg emsg (some fn) })
      else undefined

-- `if (fn) fn(...) else emit(...)`.
react : {Fn : Type 0} → ℕ → Option Fn → Reaction Fn
react id none = emits id
react id (some fn) = calls fn

-- What the two dispatchers share: the bound, the array's element, and the reaction.
unfoldable pub dispatch_id : {Fn : Type 0} → List (Option Fn) → ℕ → Result (Reaction Fn)
unfolding react
dispatch_id handlers id =
    if leb id max_emsg
    then (if ltb id (length handlers) then ok (react id (get_or handlers id none)) else undefined)
    else ok ignores

module _ {ProtoHandlerFn MsgHandlerFn : Type 0} where
  -- `packet.MsgType()` is the number with its flag.
  unfoldable pub dispatch_proto :
      DispatchTable ProtoHandlerFn MsgHandlerFn → ℕ → Result (Reaction ProtoHandlerFn)
  unfolding dispatch_id
  dispatch_proto table msg_type = dispatch_id table.proto (get_msg msg_type)

  unfoldable pub dispatch_msg :
      DispatchTable ProtoHandlerFn MsgHandlerFn → ℕ → Result (Reaction MsgHandlerFn)
  unfolding dispatch_id
  dispatch_msg table msg_type = dispatch_id table.msg msg_type
