-- ===== src/Externals.antt =====
-- What the handlers of src/routing take from other libraries: the generated protobuf classes with
-- their accessors, Crypto++ with its random numbers, and its Gunzip filter.
use steam_min_cpp.Prelude.{ℕ, List, String, ◌⊎◌}
use steam_min_cpp.Internal.Protobuf.{Protobuf}
use steam_min_cpp.Crypto.{Cipher}

-- `CMsgProtoBufHeader`. Numbers of signed fields are bit patterns.
pub record HeaderClass : Type 1 where
  pub class : Protobuf
  pub client_sessionid : class.Message → ℕ
  pub set_client_sessionid : ℕ → class.Message → class.Message
  pub set_steamid : ℕ → class.Message → class.Message
  pub set_jobid_source : ℕ → class.Message → class.Message

-- `CMsgMulti`.
pub record MultiClass : Type 1 where
  pub class : Protobuf
  pub message_body : class.Message → List ℕ
  pub size_unzipped : class.Message → ℕ

-- `CMsgClientLogonResponse`.
pub record LogonResponseClass : Type 1 where
  pub class : Protobuf
  pub eresult : class.Message → ℕ
  pub client_supplied_steamid : class.Message → ℕ

-- `CMsgClientLogon`.
pub record LogonClass : Type 1 where
  pub class : Protobuf
  pub set_client_package_version : ℕ → class.Message → class.Message
  pub set_protocol_version : ℕ → class.Message → class.Message

-- An element of `apps` or `packages`, with its `appid` or `packageid`.
pub record ProductInfo : Type 0 where
  pub product_id : ℕ
  pub sha : List ℕ
  pub buffer : List ℕ

-- `CMsgClientPICSProductInfoResponse`.
pub record ProductInfoResponseClass : Type 1 where
  pub class : Protobuf
  pub apps : class.Message → List ProductInfo
  pub packages : class.Message → List ProductInfo

-- `CMsgClientPICSProductInfoRequest`; `add_apps` appends an app with its number and its token.
pub record ProductInfoRequestClass : Type 1 where
  pub class : Protobuf
  pub add_apps : ℕ → ℕ → class.Message → class.Message

-- `random` numbers the blocks that the generator gives. `gunzip` gives the bytes, or the text of its
-- exception.
pub record Externals : Type 1 where
  pub cipher : Cipher
  pub random : ℕ → List ℕ
  pub gunzip : List ℕ → List ℕ ⊎ String
  pub header : HeaderClass
  pub multi : MultiClass
  pub logon : LogonClass
  pub logon_response : LogonResponseClass
  pub product_info_request : ProductInfoRequestClass
  pub product_info_response : ProductInfoResponseClass
