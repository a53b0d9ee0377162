-- ===== src/Receive/Tables.antt =====
-- The static objects at the ends of the files of src/routing/events/handlers, which register their
-- handlers in the tables.
use steam_min_cpp.Prelude.{ℕ, true, ◌≡◌, refl, none, some, replicate}
use steam_min_cpp.Prelude.Results.{Result, ok, ◌>>=◌}
use steam_min_cpp.Dispatch.{
  max_emsg, set_at, calls, DispatchTable, proto_register, msg_register, dispatch_proto,
  dispatch_msg,
}
use steam_min_cpp.Dispatch
use steam_min_cpp.MsgUtil.{make_msg, get_msg}
use steam_min_cpp.Enums.EMsg

pub data ProtoHandler : Type 0 where
  logon_response prod_info_response multi : ProtoHandler

pub data MsgHandler : Type 0 where
  encrypt_request encrypt_result : MsgHandler

abbrev pub Table : Type 0
Table = DispatchTable ProtoHandler MsgHandler

abbrev on_proto : ℕ → ProtoHandler → Table → Result Table
on_proto = proto_register ProtoHandler MsgHandler

abbrev on_msg : ℕ → MsgHandler → Table → Result Table
on_msg = msg_register ProtoHandler MsgHandler

-- In one of the orders that the linker may choose.
unfoldable pub registered : Result Table
unfolding ◌>>=◌ Dispatch.new
registered = do
  a ← on_msg EMsg.channel_encrypt_request encrypt_request (Dispatch.new ProtoHandler MsgHandler)
  b ← on_msg EMsg.channel_encrypt_result encrypt_result a
  c ← on_proto EMsg.client_log_on_response logon_response b
  d ← on_proto EMsg.client_pics_product_info_response prod_info_response c
  on_proto EMsg.multi multi d

-- What the registrations leave in the two arrays.
unfoldable pub table : Table
unfolding set_at
table = record {
  proto =
      set_at
        (set_at (set_at (replicate max_emsg none) EMsg.client_log_on_response (some logon_response))
          EMsg.client_pics_product_info_response (some prod_info_response))
        EMsg.multi (some multi);
  msg =
      set_at (set_at (replicate max_emsg none) EMsg.channel_encrypt_request (some encrypt_request))
        EMsg.channel_encrypt_result (some encrypt_result);
}

registered_table : registered ≡ ok table
unfolding registered ◌>>=◌ Dispatch.new msg_register proto_register set_at table
registered_table = refl

pub dispatched_request :
    dispatch_msg table EMsg.channel_encrypt_request ≡ ok (calls encrypt_request)
unfolding dispatch_msg table set_at
dispatched_request = refl

pub dispatched_result : dispatch_msg table EMsg.channel_encrypt_result ≡ ok (calls encrypt_result)
unfolding dispatch_msg table set_at
dispatched_result = refl

pub dispatched_logon :
    dispatch_proto table (make_msg EMsg.client_log_on_response true) ≡ ok (calls logon_response)
unfolding dispatch_proto table set_at make_msg get_msg
dispatched_logon = refl

pub dispatched_product :
    dispatch_proto table (make_msg EMsg.client_pics_product_info_response true)
    ≡ ok (calls prod_info_response)
unfolding dispatch_proto table set_at make_msg get_msg
dispatched_product = refl

pub dispatched_multi : dispatch_proto table (make_msg EMsg.multi true) ≡ ok (calls multi)
unfolding dispatch_proto table set_at make_msg get_msg
dispatched_multi = refl
