-- ===== src/Tcp/Stall.antt =====
-- Whether a queued frame is on its way.
use steam_min_cpp.Prelude.{
  ℕ, ◌<◌, ◌≡◌, refl, ◌∙◌, true, false, none, some, List, [], ◌∷◌, ◌⊎◌, inl, inr, arith, length,
  length-append, OnSome, Option-cases,
}
use steam_min_cpp.Tcp.{
  TcpConnection, connect_op, header_op, body_op, write_op, new, network_close, set_on_frame,
  async_send, frame, on_connect, on_header, on_body, on_write, finish_write, do_write,
}
use steam_min_cpp.Tcp.Steps.{
  Action, connects, sets_on_frame, closes, sends, connect_done, header_done, body_done, write_done,
  step, run,
}
use steam_min_cpp.Tcp.Queue.{writes, complete-OnSome, network_connect_keeps, Inv, run-Inv, new-Inv}

-- No write fails.
abbrev pub WritesSucceed : List Action → Type 0
WritesSucceed [] = Unit {0}
WritesSucceed (write_done true ∷ actions) = ⊥
WritesSucceed (write_done false ∷ actions) = WritesSucceed actions
WritesSucceed (connects servers resolves ∷ actions) = WritesSucceed actions
WritesSucceed (sets_on_frame ∷ actions) = WritesSucceed actions
WritesSucceed (closes ∷ actions) = WritesSucceed actions
WritesSucceed (sends bytes ∷ actions) = WritesSucceed actions
WritesSucceed (connect_done failed ∷ actions) = WritesSucceed actions
WritesSucceed (header_done failed buffer ∷ actions) = WritesSucceed actions
WritesSucceed (body_done failed body ∷ actions) = WritesSucceed actions

-- A write is in flight exactly when a frame is queued.
abbrev pub Live : TcpConnection → Type 0
Live c =
    ((c.write_queue ≡ []) × (writes c.pending ≡ 0))
    ⊎ ((0 < length c.write_queue) × (writes c.pending ≡ 1))

-- Frames are queued and no write is in flight.
abbrev pub Stalled : TcpConnection → Type 0
Stalled c = (0 < length c.write_queue) × (writes c.pending ≡ 0)

async_send-Live : (bytes : List ℕ) (c : TcpConnection) → Live c → Live (async_send bytes c)
unfolding async_send
async_send-Live bytes c v = ground (arith, length-append c.write_queue (frame bytes ∷ []))

finish_write-Live :
    (queue : List (List ℕ)) (c : TcpConnection)
    → c.write_queue ≡ queue
    → 0 < length queue
    → writes c.pending ≡ 0
    → Live (finish_write queue c)
unfolding finish_write do_write
finish_write-Live [] c e h w = absurd (omega arith)
finish_write-Live (front ∷ []) c e h w = inl (refl, w)
finish_write-Live (front ∷ next ∷ rest) c e h w = inr (omega arith, omega arith)

step-Live :
    (a : Action) (c : TcpConnection) → WritesSucceed (a ∷ []) → Live c → OnSome Live (step a c)
unfolding step
step-Live (connects servers resolves) c s v =
    ground (arith, network_connect_keeps servers resolves c)
step-Live sets_on_frame c s v = unfold set_on_frame in ground arith
step-Live closes c s v = unfold network_close in ground arith
step-Live (sends bytes) c s v = async_send-Live bytes c v
step-Live (connect_done failed) c s v =
    complete-OnSome Live connect_op (on_connect failed) c
      λ rest e. unfold on_connect in ground arith
step-Live (header_done failed buffer) c s v =
    complete-OnSome Live header_op (on_header failed buffer) c
      λ rest e. unfold on_header in ground arith
step-Live (body_done failed body) c s v =
    complete-OnSome Live body_op (on_body failed body) c λ rest e. unfold on_body in ground arith
step-Live (write_done true) c s v = elim s [ ]
step-Live (write_done false) c s v = complete-OnSome Live write_op (on_write false) c λ rest e.
    unfold on_write in ground (arith, finish_write-Live c.write_queue (record c { pending = rest }))

WritesSucceed-head :
    (a : Action) (actions : List Action) → WritesSucceed (a ∷ actions) → WritesSucceed (a ∷ [])
WritesSucceed-head (write_done true) actions s = s
WritesSucceed-head (write_done false) actions s = tt
WritesSucceed-head (connects servers resolves) actions s = tt
WritesSucceed-head sets_on_frame actions s = tt
WritesSucceed-head closes actions s = tt
WritesSucceed-head (sends bytes) actions s = tt
WritesSucceed-head (connect_done failed) actions s = tt
WritesSucceed-head (header_done failed buffer) actions s = tt
WritesSucceed-head (body_done failed body) actions s = tt

WritesSucceed-tail :
    (a : Action) (actions : List Action) → WritesSucceed (a ∷ actions) → WritesSucceed actions
WritesSucceed-tail (write_done true) actions s = elim s [ ]
WritesSucceed-tail (write_done false) actions s = s
WritesSucceed-tail (connects servers resolves) actions s = s
WritesSucceed-tail sets_on_frame actions s = s
WritesSucceed-tail closes actions s = s
WritesSucceed-tail (sends bytes) actions s = s
WritesSucceed-tail (connect_done failed) actions s = s
WritesSucceed-tail (header_done failed buffer) actions s = s
WritesSucceed-tail (body_done failed body) actions s = s

run-Live :
    (actions : List Action) (c : TcpConnection)
    → WritesSucceed actions
    → Live c
    → OnSome Live (run actions c)
unfolding run
run-Live [] c s v = v
run-Live (a ∷ actions) c s v = elim (Option-cases (step a c)) [
  | inl e ↦ rw (e, run) tt
  | inr (d, e) ↦
      rw (e, run)
        (run-Live actions d (WritesSucceed-tail a actions s)
          (rw e at (step-Live a c (WritesSucceed-head a actions s) v)))
]

-- As long as no write fails, a write is in flight exactly when the queue is not empty: every frame
-- that was sent is on its way.
pub run_is_live :
    (actions : List Action) (c : TcpConnection)
    → WritesSucceed actions
    → run actions new ≡ some c
    → ((c.write_queue ≡ []) × (writes c.pending ≡ 0))
      ⊎ ((0 < length c.write_queue) × (writes c.pending ≡ 1))
run_is_live actions c s e = rw e at (run-Live actions new s (unfold new in inl (refl, refl)))

step-Stalled :
    (a : Action) (c : TcpConnection)
    → Stalled c
    → OnSome (λ d. Stalled d × (d.written ≡ c.written)) (step a c)
unfolding step
step-Stalled (connects servers resolves) c v =
    ground (arith, network_connect_keeps servers resolves c)
step-Stalled sets_on_frame c v = unfold set_on_frame in ground arith
step-Stalled closes c v = unfold network_close in ground arith
step-Stalled (sends bytes) c v =
    unfold async_send in ground (arith, length-append c.write_queue (frame bytes ∷ []))
step-Stalled (connect_done failed) c v =
    complete-OnSome _ connect_op (on_connect failed) c λ rest e. unfold on_connect in ground arith
step-Stalled (header_done failed buffer) c v =
    complete-OnSome _ header_op (on_header failed buffer) c
      λ rest e. unfold on_header in ground arith
step-Stalled (body_done failed body) c v =
    complete-OnSome _ body_op (on_body failed body) c λ rest e. unfold on_body in ground arith
step-Stalled (write_done failed) c v =
    complete-OnSome _ write_op (on_write failed) c λ rest e. absurd (omega arith)

run-Stalled :
    (actions : List Action) (c : TcpConnection) (written : List (List ℕ))
    → Stalled c
    → c.written ≡ written
    → OnSome (λ d. Stalled d × (d.written ≡ written)) (run actions c)
unfolding run
run-Stalled [] c written v same = (v, same)
run-Stalled (a ∷ actions) c written v same = elim (Option-cases (step a c)) [
  | inl e ↦ rw (e, run) tt
  | inr (d, e) ↦
      let (w, kept) = stepped d e in rw (e, run) (run-Stalled actions d written w (kept ∙ same))
]
  where
    stepped : (d : TcpConnection) → step a c ≡ some d → Stalled d × (d.written ≡ c.written)
    stepped d e = rw e at (step-Stalled a c v)

failed_write-Stalled :
    (c : TcpConnection)
    → Inv c
    → OnSome (λ d. Stalled d × (d.written ≡ c.written)) (step (write_done true) c)
unfolding step
failed_write-Stalled c v =
    complete-OnSome _ write_op (on_write true) c λ rest e. unfold on_write in ground arith

-- After a write has failed no buffer is ever written again on this connection object, whatever is
-- called and completes later, a successful reconnection and new sends included: the queue keeps its
-- front, and `async_send` takes that for a write in progress.
pub failed_write_stalls :
    (before after : List Action) (c d : TcpConnection)
    → run before new ≡ some c
    → run (write_done true ∷ after) c ≡ some d
    → (d.written ≡ c.written) × (0 < length d.write_queue) × (writes d.pending ≡ 0)
unfolding run
failed_write_stalls before after c d e f = elim (Option-cases (step (write_done true) c)) [
  | inl g ↦ absurd (none_ran g)
  | inr (b, g) ↦
      let (w, same) = first b g in let (v, still) = later b w (ran b g) in (still ∙ same, v.0, v.1)
]
  where
    c-Inv : Inv c
    c-Inv = rw e at (run-Inv before new new-Inv)

    none_ran : step (write_done true) c ≡ none → ⊥
    none_ran g = cc (rw (g, run) at f)

    ran : (b : TcpConnection) → step (write_done true) c ≡ some b → run after b ≡ some d
    ran b g = rw (g, run) at f

    first :
        (b : TcpConnection)
        → step (write_done true) c ≡ some b
        → Stalled b × (b.written ≡ c.written)
    first b g = rw g at (failed_write-Stalled c c-Inv)

    later :
        (b : TcpConnection) → Stalled b → run after b ≡ some d → Stalled d × (d.written ≡ b.written)
    later b w r = rw r at (run-Stalled after b b.written w refl)
