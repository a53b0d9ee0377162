-- ===== src/Tests/Transport.antt =====
-- Runs of the TCP transport.
use steam_min_cpp.Prelude.{
  ℕ, ◌≤◌, ◌<◌, ◌≡◌, refl, ◌⊎◌, true, false, some, List, [], ◌∷◌, ◌++◌, length, map, arith,
}
use steam_min_cpp.Tcp.{
  network_connect, async_send, on_connect, on_write, on_header, on_body, set_on_frame, magic,
  validate_magic, parse_message_length, TcpConnection, connected, header_op, write_op, new, frame,
}
use steam_min_cpp.Stream.Bytes.{le_value}
use steam_min_cpp.Tcp.Steps.{
  step, complete, take_pending, Action, connects, sets_on_frame, sends, connect_done, header_done,
  body_done, write_done, run,
}
use steam_min_cpp.Tcp.Framing.{receive, wire}
use steam_min_cpp.Tcp.Receive.{receive-frame, awaiting_header, reads}
use steam_min_cpp.Tcp.Queue.{run_single_write, writes}
use steam_min_cpp.Tcp.Order.{run_keeps_order, frames_sent}
use steam_min_cpp.Tcp.Refines.{run_refines, channel_of, channel_run, event_of}
use steam_min_cpp.Tcp.Stall.{run_is_live, failed_write_stalls}

abbrev session : List Action
session =
    sets_on_frame
    ∷ connects ("cm.example:27017" ∷ []) true
    ∷ connect_done false
    ∷ sends (1 ∷ [])
    ∷ header_done false (2 ∷ 0 ∷ 0 ∷ 0 ∷ magic)
    ∷ sends (2 ∷ [])
    ∷ body_done false (7 ∷ 8 ∷ [])
    ∷ write_done false
    ∷ []

abbrev after_session : TcpConnection
after_session = record {
  state = connected;
  write_queue = frame (2 ∷ []) ∷ [];
  body_length = 2;
  has_on_frame = true;
  pending = write_op ∷ header_op ∷ [];
  written = frame (1 ∷ []) ∷ [];
  delivered = (7 ∷ 8 ∷ []) ∷ [];
}

session_run : run session new ≡ some after_session
unfolding run new step complete take_pending network_connect set_on_frame async_send on_connect
    on_header on_body on_write validate_magic parse_message_length le_value
session_run = refl

-- The peer resets the connection: the pending read and write fail; the client connects again and
-- sends.
abbrev reset : List Action
reset =
    header_done true []
    ∷ connects ("cm.example:27017" ∷ []) true
    ∷ connect_done false
    ∷ sends (3 ∷ [])
    ∷ []

abbrev after_reset : TcpConnection
after_reset = record after_session {
  write_queue = frame (2 ∷ []) ∷ frame (3 ∷ []) ∷ [];
  pending = header_op ∷ [];
}

reset_run : run (write_done true ∷ reset) after_session ≡ some after_reset
unfolding run step complete take_pending network_connect async_send on_connect on_write on_header
reset_run = refl

run_single_write_example :
    (writes after_session.pending ≤ 1)
    × (writes after_session.pending ≤ length after_session.write_queue)
run_single_write_example = run_single_write session after_session session_run

run_keeps_order_example : after_session.written ++ after_session.write_queue ≡ frames_sent session
run_keeps_order_example = run_keeps_order session after_session session_run

run_refines_example : channel_of after_session ≡ channel_run (map event_of session) (channel_of new)
run_refines_example = run_refines session new after_session session_run

run_is_live_example :
    ((after_session.write_queue ≡ []) × (writes after_session.pending ≡ 0))
    ⊎ ((0 < length after_session.write_queue) × (writes after_session.pending ≡ 1))
run_is_live_example = run_is_live session after_session tt session_run

failed_write_stalls_example :
    (after_reset.written ≡ after_session.written)
    × (0 < length after_reset.write_queue)
    × (writes after_reset.pending ≡ 0)
failed_write_stalls_example =
    failed_write_stalls session reset after_session after_reset session_run reset_run

abbrev two_messages : List (List ℕ)
two_messages = (5 ∷ 6 ∷ []) ∷ [] ∷ []

receive-frame_example :
    let d =
      receive
        (reads two_messages)
        (wire (map frame two_messages))
        (awaiting_header after_session []) in
    (d.delivered ≡ (7 ∷ 8 ∷ []) ∷ two_messages)
    × (d.pending ≡ header_op ∷ [])
    × (d.state ≡ connected)
receive-frame_example = receive-frame two_messages after_session [] (omega arith, (omega arith, tt))
