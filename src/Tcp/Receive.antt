-- ===== src/Tcp/Receive.antt =====
-- A peer's frames, read from the byte stream by the header and body handlers.
use steam_min_cpp.Prelude.{
  ℕ, suc, ◌≡◌, refl, sym, ◌∙◌, true, List, [], ◌∷◌, ◌++◌, All, length, le→leb, map, arith,
  length-append, append_assoc, append-nil, drop-length_append, take-length_append,
}
use steam_min_cpp.Tcp.{TcpConnection, Op, header_op, body_op, frame, on_header, on_body}
use steam_min_cpp.Tcp.Framing.{receive, wire, IsSendable, frame-header}

-- The connection with its frame handler set, waiting for a header in front of other operations.
abbrev pub awaiting_header : TcpConnection → List Op → TcpConnection
awaiting_header c ops = record c { has_on_frame = true; pending = header_op ∷ ops }

-- How many reads the frames take.
abbrev pub reads : List (List ℕ) → ℕ
reads [] = 0
reads (m ∷ ms) = suc (suc (reads ms))

module _ (c : TcpConnection) (ops : List Op) (n : ℕ) (m rest : List ℕ) where
  abbrev awaiting_body : TcpConnection
  awaiting_body = record c { has_on_frame = true; body_length = length m; pending = body_op ∷ ops }

  header_round :
      IsSendable m
      → receive (suc n) (frame m ++ rest) (awaiting_header c ops)
        ≡ receive n (m ++ rest) awaiting_body
  unfolding receive on_header
  header_round h =
      let (magic_ok, len, body, size) = frame-header m rest h in
      rw (le→leb 8 (length (frame m ++ rest)) (omega arith), magic_ok, len, body) refl

  body_round :
      receive (suc n) (m ++ rest) awaiting_body
      ≡ receive n rest (
          awaiting_header
            (record c { body_length = length m; delivered = c.delivered ++ (m ∷ []) })
            ops)
  unfolding receive on_body
  body_round =
      rw
        (
          le→leb (length m) (length (m ++ rest)) (omega (arith, length-append m rest)),
          drop-length_append m rest,
          take-length_append m rest,
        )
        refl

-- A connection that waits for a header, and reads the frames that `async_send` builds of some
-- messages shorter than 2 ^ 32 bytes, hands those messages to its frame handler, in order and
-- unchanged, and waits for the next header; nothing else was started and it is still connected.
pub receive-frame :
    (ms : List (List ℕ)) (c : TcpConnection) (ops : List Op)
    → All IsSendable ms
    → let d = receive (reads ms) (wire (map frame ms)) (awaiting_header c ops) in
      (d.delivered ≡ c.delivered ++ ms) × (d.pending ≡ header_op ∷ ops) × (d.state ≡ c.state)
receive-frame [] c ops h = unfold receive in (sym (append-nil c.delivered), refl, refl)
receive-frame (m ∷ ms) c ops (m_IsSendable, h) =
    let next = record c { body_length = length m; delivered = c.delivered ++ (m ∷ []) } in
    let (all, pending, state) = receive-frame ms next ops h in
    rw
      (header_round c ops (suc (reads ms)) m (wire (map frame ms)) m_IsSendable
        ∙ body_round c ops (reads ms) m (wire (map frame ms)))
      (all ∙ append_assoc c.delivered (m ∷ []) ms, pending, state)
