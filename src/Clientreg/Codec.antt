-- ===== src/Clientreg/Codec.antt =====
-- The libraries for JSON, URLs and bodies, and what the clients send and read.
use security_operator.Prelude.{ℕ, String, Bool, List, Result}
use security_operator.Realm.{RealmConfig, ClientMetadata, ClientInformation}

pub record ClientInfo : Type 0 where
  pub id : String
  pub client_id : String
  pub name : String
  pub secret : String

pub record ServiceAccountClientConfig : Type 0 where
  pub client_id : String
  pub name : String
  pub enabled : Bool
  pub service_accounts_enabled : Bool
  pub public_client : Bool

pub record UserInfo : Type 0 where
  pub id : String
  pub username : String

pub record RoleInfo : Type 0 where
  pub id : String
  pub name : String

-- `check_url` is that http.NewRequest accepts a URL, `read_limited` what is read of a body of at
-- most so many bytes, `print` a number in decimal.
pub record Codec : Type 0 where
  pub check_url : String → Result (Unit {0})
  pub read_limited : ℕ → String → String
  pub print : ℕ → String
  pub marshal_realm : RealmConfig → Result String
  pub marshal_client : ServiceAccountClientConfig → Result String
  pub marshal_roles : List RoleInfo → Result String
  pub marshal_metadata : ClientMetadata → Result String
  pub decode_token : String → Result String
  pub decode_registration_access_token : String → Result String
  pub decode_value : String → Result String
  pub decode_clients : String → Result (List ClientInfo)
  pub decode_user : String → Result UserInfo
  pub decode_role : String → Result RoleInfo
  pub decode_information : String → Result ClientInformation

abbrev pub max_error_body_size : ℕ
max_error_body_size = 4096
