-- ===== src/Receive.antt =====
-- `CMClient::consume_frame` of src/network/cmclient.cpp as a whole, and `handle_multi` of
-- src/routing/events/handlers/multi_handler.cpp, which calls it again. src/utils/gzip/gzip_helpers.cpp decompresses.
pub mod Tables
pub mod Handshake
pub mod Errors
pub mod Proto
pub mod Nested
use steam_min_cpp.Prelude.{
  ℕ, zero, suc, Bool, true, false, List, [], ◌∷◌, String, ltb, if◌then◌else◌, ◌⊎◌, inl, inr,
}
use steam_min_cpp.Prelude.Results.{Result, ok, throws, undefined}
use steam_min_cpp.Events.{msg_not_implemented_event}
use steam_min_cpp.Externals.{Externals}
use steam_min_cpp.Session.{Step, ◌>>=◌, ◌>>◌, finish, lift, try_catch, emit, get_client}
use steam_min_cpp.Packet.{
  PacketMsg, packet_msg, PacketClientMsgProtobuf, packet_client_msg_protobuf,
}
use steam_min_cpp.Message.{MsgProto, of_packet_proto}
use steam_min_cpp.Dispatch.{Reaction, calls, emits, ignores, dispatch_proto, dispatch_msg}
use steam_min_cpp.Receive.Tables.{
  ProtoHandler, logon_response, prod_info_response, multi, MsgHandler, encrypt_request,
  encrypt_result, Table,
}
use steam_min_cpp.Client
use steam_min_cpp.Client.{Frame, dropped, raw, protobuf, struct_msg}
use steam_min_cpp.Multi.{multi_frames}
use steam_min_cpp.Handlers.Encryption.{handle_encrypt_request, handle_encrypt_result}
use steam_min_cpp.Handlers.Logon.{handle_logon_response}
use steam_min_cpp.Handlers.ProductInfo.{handle_prod_info_response}

-- `gzip_decompress`: an exception of Crypto++ is thrown again as a `std::runtime_error`.
unfoldable pub gzip_decompress : Externals → List ℕ → Result (List ℕ)
gzip_decompress x input = elim (x.gunzip input) [ inl output ↦ ok output | inr what ↦ throws what ]

-- The loop of `handle_multi` over the frames, each given to the client.
unfoldable pub consume_all : (List ℕ → Step (Unit {0})) → List (List ℕ) → Step (Unit {0})
unfolding ◌>>◌ finish
consume_all consume [] = finish tt
consume_all consume (frame ∷ frames) = consume frame >> consume_all consume frames

module _ (x : Externals) (consume : List ℕ → Step (Unit {0})) where
  -- What follows the reading of the message; `consume` is `client.consume_frame(frame, false)`.
  unfoldable pub unpack_multi : MsgProto (x.header.class) (x.multi.class) → Step (Unit {0})
  unfolding ◌>>=◌ lift gzip_decompress consume_all multi_frames
  unpack_multi m = do
    let body = x.multi.message_body m.body
    payload ←
        lift (if ltb 0 (x.multi.size_unzipped m.body) then gzip_decompress x body else ok body)
    consume_all consume (multi_frames payload)

  unfoldable pub handle_multi : PacketClientMsgProtobuf (x.header.class) → Step (Unit {0})
  unfolding unpack_multi of_packet_proto
  handle_multi packet = unpack_multi (of_packet_proto (x.header.class) (x.multi.class) packet)

  unfoldable pub run_msg : MsgHandler → PacketMsg → Step (Unit {0})
  unfolding handle_encrypt_request handle_encrypt_result
  run_msg encrypt_request packet = handle_encrypt_request x packet
  run_msg encrypt_result packet = handle_encrypt_result packet

  unfoldable pub run_proto :
      ProtoHandler → PacketClientMsgProtobuf (x.header.class) → Step (Unit {0})
  unfolding handle_logon_response handle_prod_info_response handle_multi
  run_proto logon_response packet = handle_logon_response x packet
  run_proto prod_info_response packet = handle_prod_info_response x packet
  run_proto multi packet = handle_multi packet

  -- `if (fn) fn(client, packet); else client.emit(...)`.
  unfoldable pub react : {Fn : Type 0} → (Fn → Step (Unit {0})) → Reaction Fn → Step (Unit {0})
  unfolding emit finish
  react run (calls fn) = run fn
  react run (emits id) = emit (msg_not_implemented_event id)
  react run ignores = finish tt

  -- The `try` block. The message number selects the handler.
  unfoldable pub dispatch : Table → Frame → Step (Unit {0})
  unfolding ◌>>=◌ lift finish react run_msg run_proto
  dispatch table dropped = finish tt
  dispatch table (raw emsg data_bytes) = do
    packet ← lift (packet_msg emsg data_bytes)
    reaction ← lift (dispatch_msg table packet.msg_type)
    react (λ fn. run_msg fn packet) reaction
  dispatch table (protobuf emsg data_bytes) = do
    packet ← lift (packet_client_msg_protobuf (x.header.class) emsg data_bytes)
    reaction ← lift (dispatch_proto table packet.msg_type)
    react (λ fn. run_proto fn packet) reaction
  dispatch table (struct_msg emsg) = finish tt

-- `consume_frame`. The exceptions of the `try` block are logged. The first argument bounds the nested
-- calls; to run out of stack is undefined behaviour.
unfoldable pub consume_frame : Externals → Table → ℕ → List ℕ → Bool → Step (Unit {0})
unfolding ◌>>=◌ get_client lift try_catch finish dispatch
consume_frame x table zero frame encrypt = lift undefined
consume_frame x table (suc depth) frame encrypt = do
  client ← get_client
  kind ← lift (Client.consume_frame x.cipher client frame encrypt)
  try_catch (dispatch x (λ f. consume_frame x table depth f false) table kind) λ e. finish tt
