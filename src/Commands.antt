-- ===== src/Commands.antt =====
-- src/routing/commands/handlers: what the client does for a command.
pub mod Router
pub mod Sent
pub mod Established
use steam_min_cpp.Prelude.{ℕ, Bool, true, false, none, if◌then◌else◌}
use steam_min_cpp.Events.{
  client_logon_event, fail, GetProductInfo, Command, anonymous_login, client_logoff, product_info,
}
use steam_min_cpp.Externals.{Externals}
use steam_min_cpp.Session.{Step, ◌>>=◌, finish, emit, get_client, generate_jobid, send_proto}
use steam_min_cpp.Internal.Protobuf.{Protobuf}
use steam_min_cpp.Message.{MsgProto, new_proto}
use steam_min_cpp.Internal.SteamId.{of_parts, convert_to_uint64}
use steam_min_cpp.Enums.EMsg
use steam_min_cpp.Enums.EUniverse
use steam_min_cpp.Enums.EAccountType

module _ (x : Externals) where
  -- `msg.Header.proto.set_steamid(...)` and the like.
  unfoldable pub with_proto :
      {b : Protobuf}
      → (x.header.class.Message → x.header.class.Message)
      → MsgProto (x.header.class) b
      → MsgProto (x.header.class) b
  with_proto set msg = record msg { header = record msg.header { proto = set msg.header.proto } }

  unfoldable pub logon_message : MsgProto (x.header.class) (x.logon.class)
  unfolding with_proto new_proto of_parts convert_to_uint64
  logon_message =
      let msg = new_proto (x.header.class) (x.logon.class) EMsg.client_logon in
      let steam_id = of_parts 0 0 EUniverse.public EAccountType.anon_user in
      let named = with_proto (x.header.set_steamid (convert_to_uint64 steam_id)) msg in
      record named {
        body =
            x.logon.set_protocol_version 65580
              (x.logon.set_client_package_version 1561159470 named.body);
      }

  unfoldable pub exec_anon_logon : Step (Unit {0})
  unfolding ◌>>=◌ get_client emit fail logon_message send_proto
  exec_anon_logon = do
    client ← get_client
    if client.channel_secured
        then send_proto x (x.logon.class) logon_message
        else emit (client_logon_event (fail "Channel not secured") none)

  unfoldable pub logoff_message : MsgProto (x.header.class) (x.logon.class)
  unfolding new_proto
  logoff_message = new_proto (x.header.class) (x.logon.class) EMsg.client_log_off

  unfoldable pub exec_logoff : Step (Unit {0})
  unfolding ◌>>=◌ get_client finish logoff_message send_proto
  exec_logoff = do
    client ← get_client
    if client.channel_secured then send_proto x (x.logon.class) logoff_message else finish tt

  unfoldable pub product_info_message :
      GetProductInfo → ℕ → MsgProto (x.header.class) (x.product_info_request.class)
  unfolding with_proto new_proto
  product_info_message req job =
      let msg =
        new_proto (x.header.class) (x.product_info_request.class)
          EMsg.client_pics_product_info_request in
      let filled = record msg {
        body = x.product_info_request.add_apps req.id req.app_token msg.body;
      } in
      with_proto (x.header.set_steamid req.steamid) (
        with_proto (x.header.set_client_sessionid req.client_sessionid)
          (with_proto (x.header.set_jobid_source job) filled))

  unfoldable pub exec_get_product_info : GetProductInfo → Step (Unit {0})
  unfolding ◌>>=◌ generate_jobid product_info_message send_proto
  exec_get_product_info req = do
    job ← generate_jobid
    send_proto x (x.product_info_request.class) (product_info_message req job)

  -- The handler that is registered for the command's type.
  unfoldable pub exec : Command → Step (Unit {0})
  unfolding exec_anon_logon exec_logoff exec_get_product_info
  exec anonymous_login = exec_anon_logon
  exec client_logoff = exec_logoff
  exec (product_info req) = exec_get_product_info req
