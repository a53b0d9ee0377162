-- ===== src/Tcp.antt =====
-- src/network/connection/tcp.cpp and include/steamclient/connections/{connection,tcp}.hpp: the TCP
-- transport. Boost.Asio is the environment: it completes each pending operation once, with success
-- or an error. `pending` holds the operations that were started and have not completed, `written`
-- the buffers whose write completed, `delivered` the frames that `on_frame_` was called with.
pub mod Framing
pub mod Receive
pub mod Steps
pub mod Queue
pub mod Order
pub mod Stall
pub mod Refines
use steam_min_cpp.Prelude.{
  ℕ, ◌+◌, ◌%◌, ◌^◌, ◌≡◌, Bool, true, false, List, [], ◌∷◌, ◌++◌, length, take, drop, ◌&&◌, ◌==◌,
  if◌then◌else◌, String,
}
use steam_min_cpp.Stream.Bytes.{le_bytes, le_value}

pub data ConnectionState : Type 0 where
  disconnected connecting connected : ConnectionState

-- An asynchronous operation of the socket whose handler has not run.
pub data Op : Type 0 where
  connect_op header_op body_op write_op : Op

pub record TcpConnection : Type 0 where
  pub state : ConnectionState
  pub write_queue : List (List ℕ)
  -- The size that `body_buffer_` was given last.
  pub body_length : ℕ
  pub has_on_frame : Bool
  pub pending : List Op
  pub written : List (List ℕ)
  pub delivered : List (List ℕ)

-- How a call of a public function ends.
pub data Outcome : Type 0 where
  returned : Outcome
  thrown : String → Outcome

abbrev pub magic : List ℕ
magic = b'V' ∷ b'T' ∷ b'0' ∷ b'1' ∷ []

unfoldable pub new : TcpConnection
new = record {
  state = disconnected;
  write_queue = [];
  body_length = 0;
  has_on_frame = false;
  pending = [];
  written = [];
  delivered = [];
}

unfoldable pub is_connected : TcpConnection → Bool
is_connected c = elim c.state [ connected ↦ true | _ ↦ false ]

unfoldable pub set_on_frame : TcpConnection → TcpConnection
set_on_frame c = record c { has_on_frame = true }

-- `memcpy` of four bytes into a uint32_t and `native_to_little`: little-endian on every host. The
-- buffer has eight bytes, so its size test passes.
unfoldable pub parse_message_length : List ℕ → ℕ
parse_message_length buffer = le_value (take 4 buffer)

-- `std::equal(MAGIC.begin(), MAGIC.end(), buffer.begin() + 4)`.
equal : List ℕ → List ℕ → Bool
equal [] ys = true
equal (x ∷ xs) [] = false
equal (x ∷ xs) (y ∷ ys) = x == y && equal xs ys

unfoldable pub validate_magic : List ℕ → Bool
unfolding equal
validate_magic buffer = equal magic (drop 4 buffer)

-- Closing the socket makes the pending operations complete with an error, when the environment runs
-- their handlers.
unfoldable pub network_close : TcpConnection → TcpConnection
network_close c = elim c.state [ disconnected ↦ c | _ ↦ record c { state = disconnected } ]

-- `~TCPConnection`. The operations that are pending stay with the I/O context.
unfoldable pub destroy : TcpConnection → TcpConnection
unfolding is_connected network_close
destroy c = if is_connected c then network_close c else c

unfoldable pub handle_disconnect : TcpConnection → TcpConnection
unfolding network_close
handle_disconnect c = network_close c

start : Op → TcpConnection → TcpConnection
start op c = record c { pending = op ∷ c.pending }

-- `servers` is what `get_servers` returns after the fetch; `resolves` says whether the resolver
-- returns, or throws. A fetch that throws leaves the connection as a resolver that throws does.
start_connect : List String → Bool → TcpConnection → TcpConnection × Outcome
unfolding start
start_connect [] resolves c = (c, thrown "No CM servers")
start_connect (s ∷ servers) true c = (start connect_op c, returned)
start_connect (s ∷ servers) false c = (c, thrown "resolve")

unfoldable pub network_connect : List String → Bool → TcpConnection → TcpConnection × Outcome
unfolding start_connect
network_connect servers resolves c = elim c.state [
  | disconnected ↦ start_connect servers resolves (record c { state = connecting })
  | _ ↦ (c, returned)
]

unfoldable pub start_read_header : TcpConnection → TcpConnection
unfolding start
start_read_header c = start header_op c

unfoldable pub start_read_body : ℕ → TcpConnection → TcpConnection
unfolding start
start_read_body len c = start body_op (record c { body_length = len })

-- The handler of `async_connect`; `failed` is `ec`.
unfoldable pub on_connect : Bool → TcpConnection → TcpConnection
unfolding start_read_header
on_connect failed c =
    if failed
    then record c { state = disconnected }
    else start_read_header (record c { state = connected })

-- The handler of the header's read: `buffer` is the eight bytes of `header_buffer_`.
unfoldable pub on_header : Bool → List ℕ → TcpConnection → TcpConnection
unfolding handle_disconnect start_read_body
on_header failed buffer c =
    if failed
    then handle_disconnect c
    else (if validate_magic buffer
        then start_read_body (parse_message_length buffer) c
        else handle_disconnect c)

-- The handler of the body's read: `body` is what `body_buffer_` holds. `on_frame_` returns; a frame
-- handler that throws is not modelled.
unfoldable pub on_body : Bool → List ℕ → TcpConnection → TcpConnection
unfolding handle_disconnect start_read_header
on_body failed body c =
    if failed
    then handle_disconnect c
    else start_read_header
        (if c.has_on_frame then record c { delivered = c.delivered ++ (body ∷ []) } else c)

unfoldable pub do_write : TcpConnection → TcpConnection
unfolding start
do_write c = start write_op c

-- The buffer that `async_send` builds. The length is cast to 32 bits.
unfoldable pub frame : List ℕ → List ℕ
frame bytes = le_bytes 4 (length bytes % 2 ^ 32) ++ (magic ++ bytes)

unfoldable pub is_empty : List (List ℕ) → Bool
is_empty [] = true
is_empty (x ∷ xs) = false

unfoldable pub async_send : List ℕ → TcpConnection → TcpConnection
unfolding frame is_empty do_write
async_send bytes c =
    let queued = record c { write_queue = c.write_queue ++ (frame bytes ∷ []) } in
    if is_empty c.write_queue then do_write queued else queued

-- `write_queue_.pop_front(); if (!write_queue_.empty()) do_write();` after the front was written.
finish_write : List (List ℕ) → TcpConnection → TcpConnection
unfolding do_write
finish_write [] c = c
finish_write (front ∷ []) c = record c { write_queue = []; written = c.written ++ (front ∷ []) }
finish_write (front ∷ next ∷ rest) c =
    do_write (record c { write_queue = next ∷ rest; written = c.written ++ (front ∷ []) })

-- The handler of `async_write`.
unfoldable pub on_write : Bool → TcpConnection → TcpConnection
unfolding handle_disconnect finish_write
on_write failed c = if failed then handle_disconnect c else finish_write c.write_queue c
