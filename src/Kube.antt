-- ===== src/Kube.antt =====
-- The clusters that the code reads and writes through kcp, as parameters: the manager, the getters
-- of clients, the lister over all clusters, and of each resource the fields that the code uses.
use security_operator.Prelude.{ℕ, String, List, Option, Exec}
use security_operator.Api.{Store, AuthorizationModel, ApiExportPolicy}

-- An annotation that is not set is `none`.
pub record LogicalCluster : Type 0 where
  pub path : Option String
  pub cluster : Option String
  pub owner_cluster : String
  pub owner_name : String
  pub initializers : List String
  pub status_initializers : List String

pub data AccountType : Type 0 where
  org account : AccountType

pub record Account : Type 0 where
  pub account_type : AccountType
  pub creator : Option String

pub record AccountLocation : Type 0 where
  pub name : String
  pub account_type : AccountType
  pub origin_cluster_id : String
  pub generated_cluster_id : String

pub record OidcInfo : Type 0 where
  pub issuer_url : String
  pub clients : List (String × String)

pub record AccountInfo : Type 0 where
  pub account : AccountLocation
  pub organization : AccountLocation
  pub oidc : Option OidcInfo

pub record Client (W : Type 0) : Type 0 where
  pub get_logical_cluster : String → Exec W LogicalCluster
  pub get_account : String → Exec W Account
  pub get_account_info : String → Exec W AccountInfo
  pub get_store : String → Exec W Store
  pub patch_policy_status : ApiExportPolicy → Exec W (Unit {0})

-- mcmanager.Manager
pub record Manager (W : Type 0) : Type 0 where
  pub get_cluster : String → Exec W (Client W)
  pub cluster_from_context : Exec W (Client W)

-- iclient.KCPClientGetter
pub record KcpClientGetter (W : Type 0) : Type 0 where
  pub new_client_for_logical_cluster : String → Exec W (Client W)
  pub new_client_from_context : Exec W (Client W)

-- iclient.Lister, for each resource that is listed
pub record Lister (W : Type 0) : Type 0 where
  pub list_authorization_models : Exec W (List AuthorizationModel)
  pub list_account_infos : Exec W (List AccountInfo)

-- subroutines.Result: OK, or a stop that asks for another run after a delay.
pub data Outcome : Type 0 where
  done : Outcome
  requeue : ℕ → String → Outcome

-- workqueue.TypedRateLimiter, its items by name
pub record Limiter (W : Type 0) : Type 0 where
  pub when : String → Exec W ℕ
  pub forget : String → Exec W (Unit {0})
