-- ===== src/Api.antt =====
-- The resources of api/v1alpha1: what the code reads and writes of each.
use security_operator.Prelude.{String, Bool, List, ◌≡◌, ◌↔◌, ◌&&◌, ◌==◌, true, eq_iff, any, arith}

pub record Tuple : Type 0 where
  pub object : String
  pub relation : String
  pub user : String

-- `==` on the three fields.
unfoldable pub tuple_eq : Tuple → Tuple → Bool
tuple_eq t u = t.object == u.object && t.relation == u.relation && t.user == u.user

pub tuple_eq_iff : (t u : Tuple) → (tuple_eq t u ≡ true) ↔ (t ≡ u)
unfolding tuple_eq
tuple_eq_iff t u =
    ground (arith, eq_iff t.object u.object, eq_iff t.relation u.relation, eq_iff t.user u.user)

-- slices.Contains
abbrev pub contains_tuple : Tuple → List Tuple → Bool
contains_tuple t ts = any (tuple_eq t) ts

pub record StoreSpec : Type 0 where
  pub core_module : String
  pub tuples : List Tuple

pub record StoreStatus : Type 0 where
  pub store_id : String
  pub authorization_model_id : String
  pub managed_tuples : List Tuple

pub record Store : Type 0 where
  pub name : String
  pub spec : StoreSpec
  pub status : StoreStatus

pub record WorkspaceStoreRef : Type 0 where
  pub name : String
  pub cluster : String

pub record AuthorizationModelSpec : Type 0 where
  pub store_ref : WorkspaceStoreRef
  pub model : String
  pub tuples : List Tuple

pub record AuthorizationModel : Type 0 where
  pub name : String
  pub spec : AuthorizationModelSpec
  pub managed_tuples : List Tuple

pub record ApiExportRef : Type 0 where
  pub name : String
  pub cluster_path : String

pub record ApiExportPolicy : Type 0 where
  pub name : String
  pub api_export_ref : ApiExportRef
  pub allow_path_expressions : List String
  pub managed_allow_expressions : List String

pub record SecretReference : Type 0 where
  pub name : String
  pub namespace : String

pub data IdentityProviderClientType : Type 0 where
  confidential public : IdentityProviderClientType

pub record IdentityProviderClientConfig : Type 0 where
  pub client_type : IdentityProviderClientType
  pub client_name : String
  pub redirect_uris : List String
  pub post_logout_redirect_uris : List String
  pub secret_ref : SecretReference

pub record ManagedClient : Type 0 where
  pub client_id : String
  pub registration_client_uri : String
  pub secret_ref : SecretReference

-- The map of managed clients is an association list with distinct keys.
pub record IdentityProviderConfiguration : Type 0 where
  pub name : String
  pub registration_allowed : Bool
  pub clients : List IdentityProviderClientConfig
  pub ready : Bool
  pub managed_clients : List (String × ManagedClient)
