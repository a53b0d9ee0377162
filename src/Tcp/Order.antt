-- ===== src/Tcp/Order.antt =====
-- What leaves the write queue, and in which order.
use steam_min_cpp.Prelude.{
  ℕ, ◌≡◌, refl, sym, some, List, [], ◌∷◌, ◌++◌, inl, inr, arith, append_assoc, append-nil, OnSome,
  Option-cases,
}
use steam_min_cpp.Tcp.{
  TcpConnection, connect_op, header_op, body_op, write_op, new, network_close, set_on_frame,
  async_send, frame, on_connect, on_header, on_body, on_write, finish_write, do_write,
}
use steam_min_cpp.Tcp.Steps.{
  Action, connects, sets_on_frame, closes, sends, connect_done, header_done, body_done, write_done,
  step, run,
}
use steam_min_cpp.Tcp.Queue.{complete-OnSome, network_connect_keeps}

-- The frames of the `async_send` calls among the actions.
abbrev pub frames_sent : List Action → List (List ℕ)
frames_sent [] = []
frames_sent (sends bytes ∷ actions) = frame bytes ∷ frames_sent actions
frames_sent (connects servers resolves ∷ actions) = frames_sent actions
frames_sent (sets_on_frame ∷ actions) = frames_sent actions
frames_sent (closes ∷ actions) = frames_sent actions
frames_sent (connect_done failed ∷ actions) = frames_sent actions
frames_sent (header_done failed buffer ∷ actions) = frames_sent actions
frames_sent (body_done failed body ∷ actions) = frames_sent actions
frames_sent (write_done failed ∷ actions) = frames_sent actions

abbrev traffic : TcpConnection → List (List ℕ)
traffic c = c.written ++ c.write_queue

finish_write-traffic :
    (queue : List (List ℕ)) (c : TcpConnection)
    → c.write_queue ≡ queue
    → traffic (finish_write queue c) ≡ traffic c
unfolding finish_write do_write
finish_write-traffic [] c e = refl
finish_write-traffic (front ∷ []) c e = rw e (append-nil _)
finish_write-traffic (front ∷ next ∷ rest) c e = rw (e, append_assoc) refl

step-traffic :
    (a : Action) (c : TcpConnection)
    → OnSome (λ d. traffic d ≡ traffic c ++ frames_sent (a ∷ [])) (step a c)
unfolding step
step-traffic (connects servers resolves) c =
    ground (arith, network_connect_keeps servers resolves c, append-nil (traffic c))
step-traffic sets_on_frame c = unfold set_on_frame in ground (arith, append-nil (traffic c))
step-traffic closes c = unfold network_close in ground (arith, append-nil (traffic c))
step-traffic (sends bytes) c =
    unfold async_send in ground (arith, append_assoc c.written c.write_queue (frame bytes ∷ []))
step-traffic (connect_done failed) c =
    complete-OnSome _ connect_op (on_connect failed) c
      λ rest e. unfold on_connect in ground (arith, append-nil (traffic c))
step-traffic (header_done failed buffer) c =
    complete-OnSome _ header_op (on_header failed buffer) c
      λ rest e. unfold on_header in ground (arith, append-nil (traffic c))
step-traffic (body_done failed body) c =
    complete-OnSome _ body_op (on_body failed body) c
      λ rest e. unfold on_body in ground (arith, append-nil (traffic c))
step-traffic (write_done failed) c = complete-OnSome _ write_op (on_write failed) c λ rest e.
    unfold on_write in
    ground (
      arith,
      append-nil (traffic c),
      finish_write-traffic c.write_queue (record c { pending = rest }),
    )

frames_sent-cons :
    (a : Action) (actions : List Action)
    → frames_sent (a ∷ actions) ≡ frames_sent (a ∷ []) ++ frames_sent actions
frames_sent-cons (connects servers resolves) actions = refl
frames_sent-cons sets_on_frame actions = refl
frames_sent-cons closes actions = refl
frames_sent-cons (sends bytes) actions = refl
frames_sent-cons (connect_done failed) actions = refl
frames_sent-cons (header_done failed buffer) actions = refl
frames_sent-cons (body_done failed body) actions = refl
frames_sent-cons (write_done failed) actions = refl

run-traffic :
    (actions : List Action) (c : TcpConnection)
    → OnSome (λ d. traffic d ≡ traffic c ++ frames_sent actions) (run actions c)
unfolding run
run-traffic [] c = sym (append-nil (traffic c))
run-traffic (a ∷ actions) c = elim (Option-cases (step a c)) [
  | inl e ↦ rw (e, run) tt
  | inr (d, e) ↦ rw (e, run) (rw (more d (rw e at (step-traffic a c))) at (run-traffic actions d))
]
  where
    more :
        (d : TcpConnection)
        → traffic d ≡ traffic c ++ frames_sent (a ∷ [])
        → traffic d ++ frames_sent actions ≡ traffic c ++ frames_sent (a ∷ actions)
    more d e =
        rw (e, frames_sent-cons a actions) (append_assoc (traffic c) (frames_sent (a ∷ [])) _)

-- The buffers that were written, followed by those that wait, are the frames of all the
-- `async_send` calls in their order: none is lost, repeated or overtaken, whatever else happens.
pub run_keeps_order :
    (actions : List Action) (c : TcpConnection)
    → run actions new ≡ some c
    → c.written ++ c.write_queue ≡ frames_sent actions
run_keeps_order actions c e = unfold new in rw e at (run-traffic actions new)
