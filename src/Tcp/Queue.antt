-- ===== src/Tcp/Queue.antt =====
-- The write queue and the writes in flight.
use steam_min_cpp.Prelude.{
  ℕ, ◌+◌, ◌≤◌, ◌≡◌, Bool, true, false, some, List, [], ◌∷◌, inl, inr, arith, length, length-append,
  String, OnSome, Option-cases,
}
use steam_min_cpp.Tcp.{
  TcpConnection, Op, connect_op, header_op, body_op, write_op, new, network_connect, network_close,
  set_on_frame, async_send, frame, on_connect, on_header, on_body, on_write,
}
use steam_min_cpp.Tcp.Steps.{
  Action, connects, sets_on_frame, closes, sends, connect_done, header_done, body_done, write_done,
  same_op, take_pending, complete, step, run,
}

abbrev pub weight : Op → ℕ
weight write_op = 1
weight connect_op = 0
weight header_op = 0
weight body_op = 0

-- How many writes are in flight.
abbrev pub writes : List Op → ℕ
writes [] = 0
writes (op ∷ ops) = weight op + writes ops

same_op-weight : (a b : Op) → same_op a b ≡ true → weight a ≡ weight b
unfolding same_op
same_op-weight a b = ground arith

writes-take_pending :
    (op : Op) (ops : List Op)
    → OnSome (λ rest. writes ops ≡ weight op + writes rest) (take_pending op ops)
unfolding take_pending
writes-take_pending op [] = tt
writes-take_pending op (x ∷ ops) = ground (arith, same_op-weight op x, writes-take_pending op ops)

-- At most one write is in flight, and then the queue holds its buffer.
pub record Inv (c : TcpConnection) : Type 0 where
  pub single : writes c.pending ≤ 1
  pub front : writes c.pending ≤ length c.write_queue

pub complete-OnSome :
    (P : TcpConnection → Type 0) (op : Op) (handler : TcpConnection → TcpConnection)
    (c : TcpConnection)
    → ((rest : List Op)
        → writes c.pending ≡ weight op + writes rest
        → P (handler (record c { pending = rest })))
    → OnSome P (complete op handler c)
unfolding complete
complete-OnSome P op handler c h = elim (Option-cases (take_pending op c.pending)) [
  | inl e ↦ rw (e, complete) tt
  | inr (rest, e) ↦ rw (e, complete) (h rest (rw e at (writes-take_pending op c.pending)))
]

-- What `network_connect` leaves alone.
pub network_connect_keeps :
    (servers : List String) (resolves : Bool) (c : TcpConnection)
    → let d = (network_connect servers resolves c).0 in
      (d.write_queue ≡ c.write_queue)
      × (d.written ≡ c.written)
      × (writes d.pending ≡ writes c.pending)
unfolding network_connect
network_connect_keeps [] resolves c = ground arith
network_connect_keeps (s ∷ servers) true c = ground arith
network_connect_keeps (s ∷ servers) false c = ground arith

pub step-Inv : (a : Action) (c : TcpConnection) → Inv c → OnSome Inv (step a c)
unfolding step
step-Inv (connects servers resolves) c v = ground (arith, network_connect_keeps servers resolves c)
step-Inv sets_on_frame c v = unfold set_on_frame in ground arith
step-Inv closes c v = unfold network_close in ground arith
step-Inv (sends bytes) c v =
    unfold async_send in ground (arith, length-append c.write_queue (frame bytes ∷ []))
step-Inv (connect_done failed) c v =
    complete-OnSome Inv connect_op (on_connect failed) c λ rest e. unfold on_connect in ground arith
step-Inv (header_done failed buffer) c v =
    complete-OnSome Inv header_op (on_header failed buffer) c
      λ rest e. unfold on_header in ground arith
step-Inv (body_done failed body) c v =
    complete-OnSome Inv body_op (on_body failed body) c λ rest e. unfold on_body in ground arith
step-Inv (write_done failed) c v =
    complete-OnSome Inv write_op (on_write failed) c λ rest e. unfold on_write in ground arith

pub run-Inv : (as_left : List Action) (c : TcpConnection) → Inv c → OnSome Inv (run as_left c)
unfolding run
run-Inv [] c v = v
run-Inv (a ∷ as_left) c v = elim (Option-cases (step a c)) [
  | inl e ↦ rw (e, run) tt
  | inr (d, e) ↦ rw (e, run) (run-Inv as_left d (rw e at (step-Inv a c v)))
]

pub new-Inv : Inv new
unfolding new
new-Inv = omega arith

-- Whatever is called and whatever completes, in any order, with a frame handler or without: at most one write is in flight, and only
-- while the queue is not empty, so that `pop_front` and `front` have an element.
pub run_single_write :
    (actions : List Action) (c : TcpConnection)
    → run actions new ≡ some c
    → (writes c.pending ≤ 1) × (writes c.pending ≤ length c.write_queue)
run_single_write actions c e =
    let v : Inv c = rw e at (run-Inv actions new new-Inv) in (v.single, v.front)
