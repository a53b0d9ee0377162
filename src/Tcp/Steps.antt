-- ===== src/Tcp/Steps.antt =====
-- A connection's life as a sequence of actions: calls of its public functions, and completions of
-- pending operations, in any order that the environment chooses.
use steam_min_cpp.Prelude.{
  ℕ, Bool, true, false, Option, none, some, List, [], ◌∷◌, if◌then◌else◌, String,
}
use steam_min_cpp.Tcp.{
  TcpConnection, Op, connect_op, header_op, body_op, write_op, network_connect, network_close,
  set_on_frame, async_send, on_connect, on_header, on_body, on_write,
}

-- `servers` and `resolves` are as in `network_connect`; the first argument of a completion says
-- whether it failed. What the frame handler calls is an action behind its `body_done`.
pub data Action : Type 0 where
  connects : List String → Bool → Action
  sets_on_frame : Action
  closes : Action
  sends : List ℕ → Action
  connect_done : Bool → Action
  header_done : Bool → List ℕ → Action
  body_done : Bool → List ℕ → Action
  write_done : Bool → Action

unfoldable pub same_op : Op → Op → Bool
same_op connect_op connect_op = true
same_op header_op header_op = true
same_op body_op body_op = true
same_op write_op write_op = true
same_op _ _ = false

-- The pending operations without one `op`; none if there is no such operation.
unfoldable pub take_pending : Op → List Op → Option (List Op)
unfolding same_op
take_pending op [] = none
take_pending op (x ∷ xs) =
    if same_op op x
    then some xs
    else elim (take_pending op xs) [ none ↦ none | some ys ↦ some (x ∷ ys) ]

-- The operation completes, and its handler runs.
unfoldable pub complete :
    Op → (TcpConnection → TcpConnection) → TcpConnection → Option TcpConnection
complete op handler c = elim (take_pending op c.pending) [
  | none ↦ none
  | some rest ↦ some (handler (record c { pending = rest }))
]

-- `none` where no such operation is pending.
unfoldable pub step : Action → TcpConnection → Option TcpConnection
step (connects servers resolves) c = some ((network_connect servers resolves c).0)
step sets_on_frame c = some (set_on_frame c)
step closes c = some (network_close c)
step (sends bytes) c = some (async_send bytes c)
step (connect_done failed) c = complete connect_op (on_connect failed) c
step (header_done failed buffer) c = complete header_op (on_header failed buffer) c
step (body_done failed body) c = complete body_op (on_body failed body) c
step (write_done failed) c = complete write_op (on_write failed) c

unfoldable pub run : List Action → TcpConnection → Option TcpConnection
run [] c = some c
run (a ∷ as_left) c = elim (step a c) [ none ↦ none | some d ↦ run as_left d ]
