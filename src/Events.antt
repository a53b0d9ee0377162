-- ===== src/Events.antt =====
-- include/steamclient/events.hpp: the events that the client emits, and the commands that it executes.
use steam_min_cpp.Prelude.{ℕ, Bool, true, false, Option, List, String}
use steam_min_cpp.Vdf.{VdfNode}

pub record EventResult : Type 0 where
  pub success : Bool
  pub message : String

-- `EventResult::ok` and `EventResult::fail`.
unfoldable pub succeeded : EventResult
succeeded = record { success = true; message = "" }

unfoldable pub fail : String → EventResult
fail msg = record { success = false; message = msg }

pub record ProductAppInfo : Type 0 where
  pub appid : ℕ
  pub sha : List ℕ
  pub appinfo : VdfNode

pub record ProductPackageInfo : Type 0 where
  pub packageid : ℕ
  pub sha : List ℕ
  pub pkginfo : VdfNode

-- The fields of `ClientLogonEvent` besides its result.
pub record LogonSession : Type 0 where
  pub steamid : ℕ
  pub client_sessionid : ℕ

-- The inherited constructor of `ClientLogonEvent`, which takes a result alone, leaves the other two
-- fields without a value: none. The pointer in `MsgNotImplementedEvent` is left out.
pub data Event : Type 0 where
  channel_secured_event : EventResult → Event
  client_logon_event : EventResult → Option LogonSession → Event
  msg_not_implemented_event : ℕ → Event
  product_info_result : List ProductAppInfo → List ProductPackageInfo → Event

pub record GetProductInfo : Type 0 where
  pub id : ℕ
  pub steamid : ℕ
  pub client_sessionid : ℕ
  pub app_token : ℕ

-- The constructor without a token.
unfoldable pub get_product_info : ℕ → ℕ → ℕ → GetProductInfo
get_product_info i s_id c_sid = record {
  id = i;
  steamid = s_id;
  client_sessionid = c_sid;
  app_token = 0;
}

pub data Command : Type 0 where
  anonymous_login : Command
  client_logoff : Command
  product_info : GetProductInfo → Command
