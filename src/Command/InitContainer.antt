-- ===== src/Command/InitContainer.antt =====
-- cmd/initContainer.go: the service accounts of Keycloak's realm master, and the secrets for them.
pub mod Quiet
pub mod Secrets
pub mod Provided
use security_operator.Prelude.{
  String, Bool, List, [], ◌∷◌, Option, none, some, Exec, Error, Result, ok, err, crash, fail, pure,
  raise, panic, attempt, context, ◌>>=◌, ◌>>◌, ◌==◌, ◌||◌, if◌then◌else◌, true, false,
}
use security_operator.Prelude.Text.{concat}
use security_operator.Api.{SecretReference}
use security_operator.Http.{RoundTripper}
use security_operator.Idp.{lookup, is_empty}
use security_operator.Realm.{put}
use security_operator.Clientreg.Codec.{
  Codec, ClientInfo, ServiceAccountClientConfig, UserInfo, RoleInfo,
}
use security_operator.Clientreg.Admin.{
  AdminClient, new_admin_client, get_realm_role, list_clients, create_service_account_client,
  get_client_secret, get_service_account_user, assign_realm_role_to_user,
}

-- internal/config/initcontainer.go
pub record InitContainerClientConfig : Type 0 where
  pub name : String
  pub secret_ref : SecretReference

pub record InitContainerConfiguration : Type 0 where
  pub keycloak_base_url : String
  pub keycloak_client_id : String
  pub keycloak_user : String
  pub password_file : String
  pub clients : List InitContainerClientConfig

pub record Secret : Type 0 where
  pub entries : List (String × String)
  pub secret_type : String

-- The last of two clients with the same ID is the one that is found.
unfoldable pub client_map :
    List ClientInfo → List (String × ClientInfo) → List (String × ClientInfo)
client_map [] m = m
client_map (x ∷ xs) m = client_map xs (put x.client_id x m)

unfoldable pub credentials : String → String → Secret → Secret
credentials name client_secret s = record {
  entries = put "client_secret" client_secret (put "client_id" name s.entries);
  secret_type = "Opaque";
}

abbrev pub service_account : String → ServiceAccountClientConfig
service_account name = record {
  client_id = name;
  name = name;
  enabled = true;
  service_accounts_enabled = true;
  public_client = false;
}

-- CreateOrUpdate on secrets
abbrev pub SecretWriter : Type 0 → Type 0
SecretWriter W = SecretReference → (Secret → Secret) → Exec W (Unit {0})

module _ {W : Type 0} (codec : Codec) (admin : AdminClient W)
    (create_or_update_secret : SecretWriter W) where
  abbrev pub client_uuid : List (String × ClientInfo) → String → Exec W String
  client_uuid existing name = elim (lookup name existing) [
    | some x ↦ pure x.id
    | none ↦ do
      made ←
          context "failed to create client"
            (create_service_account_client codec admin (service_account name))
      pure made.id
  ]

  unfoldable pub configure_client :
      RoleInfo → List (String × ClientInfo) → InitContainerClientConfig → Exec W (Unit {0})
  configure_client admin_role existing c =
      if c.secret_ref.name == "" || c.secret_ref.namespace == ""
      then raise (fail "secretRef name and namespace are required")
      else (do
        uuid ← client_uuid existing c.name
        client_secret ← context "failed to get client secret" (get_client_secret codec admin uuid)
        user ←
            context "failed to get service account user" (get_service_account_user codec admin uuid)
        context "failed to assign admin role"
            (assign_realm_role_to_user codec admin user.id admin_role)
        context "failed to create secret"
            (create_or_update_secret c.secret_ref (credentials c.name client_secret)))

  unfoldable pub configure_clients :
      RoleInfo → List (String × ClientInfo) → List InitContainerClientConfig → Exec W (Unit {0})
  unfolding configure_client
  configure_clients admin_role existing [] = pure tt
  configure_clients admin_role existing (c ∷ cs) = do
    configure_client admin_role existing c
    configure_clients admin_role existing cs

  abbrev pub found_role : Option RoleInfo → Exec W RoleInfo
  found_role none = raise (fail "admin role not found in master realm")
  found_role (some role) = pure role

  unfoldable pub bootstrap : List InitContainerClientConfig → Exec W (Unit {0})
  unfolding configure_clients client_map
  bootstrap clients = do
    found ← context "failed to get admin role" (get_realm_role codec admin "admin")
    admin_role ← found_role found
    existing ← context "failed to list existing clients" (list_clients codec admin)
    configure_clients admin_role (client_map existing []) clients

-- The libraries: reading the two files, the token of the administrator (OpenID discovery and the
-- password grant), and the client of Kubernetes.
pub record Environment (W : Type 0) : Type 0 where
  pub load_config : Exec W InitContainerConfiguration
  pub read_password_file : String → Exec W String
  pub trim_space : String → String
  pub new_provider : String → Exec W (Unit {0})
  pub password_credentials : String → String → String → Exec W (RoundTripper W)
  pub new_client : Exec W (SecretWriter W)

-- A configuration that cannot be loaded is a nil pointer, which is then read.
abbrev loaded : {W : Type 0} → Result InitContainerConfiguration → Exec W InitContainerConfiguration
loaded (Result.ok cfg) = pure cfg
loaded (Result.err e) = panic "invalid memory address or nil pointer dereference"
loaded (Result.crash s) = panic s

module _ {W : Type 0} (codec : Codec) (env : Environment W) where
  abbrev with_config : InitContainerConfiguration → Exec W (Unit {0})
  with_config cfg =
      if cfg.keycloak_base_url == ""
      then raise (fail "keycloak-base-url is required")
      else if is_empty cfg.clients
      then raise (fail "at least one client must be configured")
      else (do
        text ←
            context "failed to read password"
              (context "failed to read password file" (env.read_password_file cfg.password_file))
        context "failed to initialize OIDC provider"
            (env.new_provider (concat (cfg.keycloak_base_url ∷ "/realms/master" ∷ [])))
        http_client ← context "failed to get token" (
            env.password_credentials cfg.keycloak_client_id cfg.keycloak_user (env.trim_space text))
        writer ← context "failed to create Kubernetes client" env.new_client
        bootstrap codec (new_admin_client http_client cfg.keycloak_base_url "master") writer
            cfg.clients)

  unfoldable pub run : Exec W (Unit {0})
  run = do read ← attempt env.load_config; cfg ← loaded read; with_config cfg
