-- ===== src/Tcp/Refines.antt =====
-- The sending side of the transport as a channel that keeps the order of its messages.
use steam_min_cpp.Prelude.{
  ℕ, ◌≡◌, refl, map, subst, true, false, some, List, [], ◌∷◌, ◌++◌, inl, inr, arith, OnSome,
  Option-cases,
}
use steam_min_cpp.Tcp.{
  TcpConnection, connect_op, header_op, body_op, write_op, network_connect, network_close,
  set_on_frame, async_send, frame, on_connect, on_header, on_body, on_write, finish_write, do_write,
}
use steam_min_cpp.Tcp.Steps.{
  Action, connects, sets_on_frame, closes, sends, connect_done, header_done, body_done, write_done,
  step, run,
}
use steam_min_cpp.Tcp.Queue.{complete-OnSome, network_connect_keeps}

-- What waits in the channel, and what has left it.
pub record Channel : Type 0 where
  pub waiting : List (List ℕ)
  pub gone : List (List ℕ)

-- A channel takes in a message, lets its first frame go, or rests.
pub data ChannelEvent : Type 0 where
  takes : List ℕ → ChannelEvent
  lets_go rests : ChannelEvent

let_go : List (List ℕ) → Channel → Channel
let_go [] c = c
let_go (front ∷ more) c = record { waiting = more; gone = c.gone ++ front ∷ [] }

-- The frame of a message waits behind those that are there.
channel_step : ChannelEvent → Channel → Channel
unfolding let_go
channel_step (takes bytes) c = record c { waiting = c.waiting ++ frame bytes ∷ [] }
channel_step lets_go c = let_go c.waiting c
channel_step rests c = c

pub channel_run : List ChannelEvent → Channel → Channel
unfolding channel_step
channel_run [] c = c
channel_run (event ∷ events) c = channel_run events (channel_step event c)

-- What an action means to the channel: only a send and a write that succeeds change it.
abbrev pub event_of : Action → ChannelEvent
event_of (sends bytes) = takes bytes
event_of (write_done false) = lets_go
event_of (write_done true) = rests
event_of (connects servers resolves) = rests
event_of sets_on_frame = rests
event_of closes = rests
event_of (connect_done failed) = rests
event_of (header_done failed buffer) = rests
event_of (body_done failed body) = rests

abbrev pub channel_of : TcpConnection → Channel
channel_of c = record { waiting = c.write_queue; gone = c.written }

same_channel :
    (c : TcpConnection) (e : Channel)
    → c.write_queue ≡ e.waiting
    → c.written ≡ e.gone
    → channel_of c ≡ e
same_channel c e q w = λ i. record { waiting = q i; gone = w i }

finish_write-let_go :
    (queue : List (List ℕ)) (c : TcpConnection)
    → c.write_queue ≡ queue
    → channel_of (finish_write queue c) ≡ let_go queue (channel_of c)
unfolding finish_write do_write let_go
finish_write-let_go [] c e = refl
finish_write-let_go (front ∷ []) c e = refl
finish_write-let_go (front ∷ next ∷ more) c e = refl

step-channel_step :
    (a : Action) (c : TcpConnection)
    → OnSome (λ d. channel_of d ≡ channel_step (event_of a) (channel_of c)) (step a c)
unfolding step channel_step
step-channel_step (connects servers resolves) c =
    let kept = network_connect_keeps servers resolves c in
    same_channel (network_connect servers resolves c).0 (channel_of c) kept.0 kept.1
step-channel_step sets_on_frame c =
    same_channel (set_on_frame c) (channel_of c) (unfold set_on_frame in refl)
      (unfold set_on_frame in refl)
step-channel_step closes c =
    same_channel (network_close c) (channel_of c) (unfold network_close in ground arith)
      (unfold network_close in ground arith)
step-channel_step (sends bytes) c =
    same_channel (async_send bytes c) (channel_step (takes bytes) (channel_of c))
      (unfold async_send in ground arith) (unfold async_send in ground arith)
step-channel_step (connect_done failed) c =
    complete-OnSome _ connect_op (on_connect failed) c λ ops e.
      same_channel (on_connect failed (record c { pending = ops })) (channel_of c)
        (unfold on_connect in ground arith) (unfold on_connect in ground arith)
step-channel_step (header_done failed buffer) c =
    complete-OnSome _ header_op (on_header failed buffer) c λ ops e.
      same_channel (on_header failed buffer (record c { pending = ops })) (channel_of c)
        (unfold on_header in ground arith) (unfold on_header in ground arith)
step-channel_step (body_done failed body) c =
    complete-OnSome _ body_op (on_body failed body) c λ ops e.
      same_channel (on_body failed body (record c { pending = ops })) (channel_of c)
        (unfold on_body in ground arith) (unfold on_body in ground arith)
step-channel_step (write_done true) c = complete-OnSome _ write_op (on_write true) c λ ops e.
    same_channel (on_write true (record c { pending = ops })) (channel_of c)
      (unfold on_write in ground arith) (unfold on_write in ground arith)
step-channel_step (write_done false) c =
    complete-OnSome _ write_op (on_write false) c λ ops e.
      unfold on_write in finish_write-let_go c.write_queue (record c { pending = ops }) refl

run-channel_run :
    (actions : List Action) (c : TcpConnection)
    → OnSome (λ d. channel_of d ≡ channel_run (map event_of actions) (channel_of c)) (run actions c)
unfolding run channel_run
run-channel_run [] c = refl
run-channel_run (a ∷ actions) c = elim (Option-cases (step a c)) [
  | inl e ↦ rw (e, run) tt
  | inr (d, e) ↦
      rw (e, run)
        (subst
          (λ (k : Channel).
            OnSome (λ x. channel_of x ≡ channel_run (map event_of actions) k) (run actions d))
          (rw e at (step-channel_step a c)) (run-channel_run actions d))
]

-- The sending side refines a first-in-first-out channel: after a run of the transport, its write queue
-- and the buffers that were written are what the channel has made of the run's events, where a call of
-- `async_send` hands it a message, a write that succeeds lets its first frame go, and connecting,
-- closing, reading and failing leave it at rest.
pub run_refines :
    (actions : List Action) (c d : TcpConnection)
    → run actions c ≡ some d
    → channel_of d ≡ channel_run (map event_of actions) (channel_of c)
run_refines actions c d e = rw e at (run-channel_run actions c)
