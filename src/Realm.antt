-- ===== src/Realm.antt =====
-- internal/subroutine/idp/subroutine.go and pkg/clientreg: what is sent to Keycloak for a realm and
-- for its clients, and the clients that the registration calls.
use security_operator.Prelude.{
  ℕ, String, Bool, List, [], ◌∷◌, Option, none, some, Exec, Error, ◌==◌, nat_eq, if◌then◌else◌,
  true, false,
}
use security_operator.Api.{
  IdentityProviderClientConfig, IdentityProviderConfiguration, confidential, public, ManagedClient,
  SecretReference,
}
use security_operator.Idp.{lookup}

pub record SmtpConfig : Type 0 where
  pub host : String
  pub port : String
  pub from : String
  pub ssl : Bool
  pub start_tls : Bool
  pub auth : Bool
  pub user : String
  pub password : String

pub record RealmConfig : Type 0 where
  pub realm : String
  pub display_name : String
  pub enabled : Bool
  pub login_with_email_allowed : Bool
  pub registration_email_as_username : Bool
  pub registration_allowed : Bool
  pub sso_session_idle_timeout : ℕ
  pub access_token_lifespan : ℕ
  pub smtp_server : Option SmtpConfig

pub data AuthMethod : Type 0 where
  client_secret_basic no_secret : AuthMethod

pub record ClientMetadata : Type 0 where
  pub client_id : String
  pub client_name : String
  pub redirect_uris : List String
  pub grant_types : List String
  pub token_endpoint_auth_method : AuthMethod
  pub post_logout_redirect_uris : List String

pub record ClientInformation : Type 0 where
  pub client_id : String
  pub client_secret : String
  pub registration_access_token : String
  pub registration_client_uri : String

-- keycloak.AdminClient and clientreg.Client of one realm. Keycloak's client of a name is its ID.
pub record Keycloak (W : Type 0) : Type 0 where
  pub create_or_update_realm : RealmConfig → Exec W Bool
  pub delete_realm : String → Exec W (Unit {0})
  pub get_client_by_name : String → Exec W (Option String)
  pub registration_endpoint : String
  pub register : String → ClientMetadata → Exec W ClientInformation
  pub update : String → String → ClientMetadata → Exec W ClientInformation
  pub delete : String → String → String → Exec W (Unit {0})

-- The client of root:orgs. A secret is read for its field registration_access_token, and written
-- with the fields that are not empty.
pub record SecretsClient (W : Type 0) : Type 0 where
  pub get_registration_access_token : SecretReference → Exec W String
  pub delete_secret : SecretReference → Exec W (Unit {0})
  pub create_or_update_secret :
      SecretReference → List (String × String) → List (String × String) → Exec W (Unit {0})

-- The settings IDP of the configuration; `smtp_port` is printed.
pub record Settings : Type 0 where
  pub access_token_lifespan : ℕ
  pub smtp_server : String
  pub smtp_port : String
  pub from_address : String
  pub ssl : Bool
  pub start_tls : Bool
  pub smtp_user : String
  pub smtp_password : String
  pub keycloak_base_url : String

-- clientreg.IsNotFound: an HTTP error with status 404.
abbrev pub is_http_not_found : Error → Bool
is_http_not_found (Error.http status body op) = nat_eq status 404
is_http_not_found (Error.wrap s e) = is_http_not_found e
is_http_not_found e = false

unfoldable pub smtp_config : Settings → Option SmtpConfig
smtp_config c =
    if c.smtp_server == ""
    then none
    else some (record {
      host = c.smtp_server;
      port = c.smtp_port;
      from = c.from_address;
      ssl = c.ssl;
      start_tls = c.start_tls;
      auth = if c.smtp_user == "" then false else true;
      user = c.smtp_user;
      password = if c.smtp_user == "" then "" else c.smtp_password;
    })

unfoldable pub realm_config : Settings → String → Bool → RealmConfig
realm_config c realm_name registration_allowed = record {
  realm = realm_name;
  display_name = realm_name;
  enabled = true;
  login_with_email_allowed = true;
  registration_email_as_username = true;
  registration_allowed = registration_allowed;
  sso_session_idle_timeout = c.access_token_lifespan;
  access_token_lifespan = c.access_token_lifespan;
  smtp_server = smtp_config c;
}

unfoldable pub client_metadata : IdentityProviderClientConfig → ClientMetadata
client_metadata c = record {
  client_id = "";
  client_name = c.client_name;
  redirect_uris = c.redirect_uris;
  grant_types = "authorization_code" ∷ "refresh_token" ∷ [];
  token_endpoint_auth_method = elim c.client_type [
    | public ↦ no_secret
    | confidential ↦ client_secret_basic
  ];
  post_logout_redirect_uris = c.post_logout_redirect_uris;
}

-- What a map gives for a name, the zero value where the name is missing.
abbrev pub managed_of : (ManagedClient → String) → String → IdentityProviderConfiguration → String
managed_of field name idp = elim (lookup name idp.managed_clients) [ none ↦ "" | some m ↦ field m ]

abbrev pub or_if_empty : String → String → String
or_if_empty s d = if s == "" then d else s

-- `m[k] = v`
unfoldable pub put : {A : Type 0} → String → A → List (String × A) → List (String × A)
put k v [] = (k, v) ∷ []
put k v (e ∷ es) = if e.0 == k then (k, v) ∷ es else e ∷ put k v es

abbrev pub not_empty_field : String → String → List (String × String)
not_empty_field key value = if value == "" then [] else (key, value) ∷ []
