-- ===== src/Idp.antt =====
-- internal/subroutine/idp.go: the identity provider of an organisation, and its OIDC settings in
-- the AccountInfo of the organisation's workspace.
pub mod Clients
pub mod Laws
pub mod Reconcile
use security_operator.Prelude.{
  String, Bool, List, [], ◌∷◌, ◌++◌, Option, none, some, Exec, fail, pure, raise, context, ◌>>=◌,
  ◌>>◌, ◌==◌, ◌&&◌, ◌||◌, find, map, if◌then◌else◌,
}
use security_operator.Prelude.Text.{split, concat}
use security_operator.Api.{
  IdentityProviderClientConfig, IdentityProviderConfiguration, IdentityProviderClientType,
  confidential, public, ManagedClient, SecretReference,
}
use security_operator.Kube.{
  LogicalCluster, Account, AccountInfo, AccountType, org, account, OidcInfo, Outcome, done, requeue,
  Limiter,
}

-- What the subroutine calls on the client of root:orgs. `create_or_patch` is
-- `controllerutil.CreateOrPatch`, with the function that sets the fields.
pub record OrgsClient (W : Type 0) : Type 0 where
  pub get_account : String → Exec W Account
  pub create_or_patch :
      String → (IdentityProviderConfiguration → IdentityProviderConfiguration) → Exec W (Unit {0})
  pub get_idp : String → Exec W IdentityProviderConfiguration

-- And on the client of the organisation's workspace.
pub record WorkspaceClient (W : Type 0) : Type 0 where
  pub get_account_info : String → Exec W AccountInfo
  pub patch_account_info : AccountInfo → Exec W (Unit {0})

pub record Idp : Type 0 where
  pub additional_redirect_urls : List String
  pub kubectl_client_redirect_urls : List String
  pub base_domain : String
  pub registration_allowed : Bool

abbrev pub kubectl_client_name : String
kubectl_client_name = "kubectl"

abbrev pub secret_namespace : String
secret_namespace = "default"

abbrev pub last_or : String → List String → String
last_or d [] = d
last_or d (x ∷ xs) = last_or x xs

unfoldable pub get_workspace_name : LogicalCluster → String
get_workspace_name lc = elim lc.path [ none ↦ "" | some path ↦ last_or "" (split path 58) ]

-- The first client of the name takes the desired fields; without one the desired client is added.
unfoldable pub ensure_client :
    List IdentityProviderClientConfig
    → IdentityProviderClientConfig
    → List IdentityProviderClientConfig
ensure_client [] desired = desired ∷ []
ensure_client (c ∷ cs) desired =
    if c.client_name == desired.client_name
    then record c {
      client_type = desired.client_type;
      redirect_uris = desired.redirect_uris;
      post_logout_redirect_uris = desired.post_logout_redirect_uris;
      secret_ref = desired.secret_ref;
    }
      ∷ cs
    else c ∷ ensure_client cs desired

unfoldable pub portal_client : Idp → String → IdentityProviderClientConfig
portal_client i name = record {
  client_type = confidential;
  client_name = name;
  redirect_uris =
      i.additional_redirect_urls
      ++ concat ("https://" ∷ name ∷ "." ∷ i.base_domain ∷ "/*" ∷ []) ∷ [];
  post_logout_redirect_uris =
      concat ("https://" ∷ name ∷ "." ∷ i.base_domain ∷ "/logout*" ∷ []) ∷ [];
  secret_ref = record {
    name = concat ("portal-client-secret-" ∷ name ∷ "-" ∷ name ∷ []);
    namespace = secret_namespace;
  };
}

unfoldable pub kubectl_client : Idp → String → IdentityProviderClientConfig
kubectl_client i name = record {
  client_type = public;
  client_name = kubectl_client_name;
  redirect_uris = i.kubectl_client_redirect_urls;
  post_logout_redirect_uris = [];
  secret_ref = record {
    name = concat ("portal-client-secret-" ∷ name ∷ "-" ∷ kubectl_client_name ∷ []);
    namespace = secret_namespace;
  };
}

-- What `CreateOrPatch` is to do with the configuration.
unfoldable pub mutate : Idp → String → IdentityProviderConfiguration → IdentityProviderConfiguration
mutate i name idp = record idp {
  registration_allowed = i.registration_allowed;
  clients =
      ensure_client (ensure_client idp.clients (portal_client i name)) (kubectl_client i name);
}

-- Looking up a key of a map.
abbrev pub lookup : {A : Type 0} → String → List (String × A) → Option A
lookup k [] = none
lookup k (e ∷ es) = if e.0 == k then some e.1 else lookup k es

unfoldable pub is_empty : {A : Type 0} → List A → Bool
is_empty [] = Bool.true
is_empty (x ∷ xs) = Bool.false

-- Every client of the spec is a managed client with an ID.
unfoldable pub check_clients :
    {W : Type 0}
    → List (String × ManagedClient)
    → List IdentityProviderClientConfig
    → Exec W (Unit {0})
check_clients managed [] = pure tt
check_clients managed (c ∷ cs) = elim (lookup c.client_name managed) [
  | none ↦ raise (fail "managed client not found in IdentityProviderConfiguration status")
  | some m ↦
      if m.client_id == ""
      then raise (fail "managed client has empty ClientID in IdentityProviderConfiguration status")
      else check_clients managed cs
]

-- The entries of one map are entries of the other.
unfoldable pub sub_map : List (String × String) → List (String × String) → Bool
sub_map [] b = Bool.true
sub_map (e ∷ es) b = elim (lookup e.0 b) [ none ↦ Bool.false | some v ↦ v == e.1 ] && sub_map es b

-- equality.Semantic.DeepEqual
unfoldable pub oidc_equal : Option OidcInfo → OidcInfo → Bool
oidc_equal none b = Bool.false
oidc_equal (some a) b =
    a.issuer_url == b.issuer_url && sub_map a.clients b.clients && sub_map b.clients a.clients

unfoldable pub desired_oidc : Idp → String → IdentityProviderConfiguration → OidcInfo
desired_oidc i name idp = record {
  issuer_url = concat ("https://" ∷ i.base_domain ∷ "/keycloak/realms/" ∷ name ∷ []);
  clients = map (λ (e : String × ManagedClient). (e.0, (e.1).client_id)) idp.managed_clients;
}

module _ {W : Type 0} (i : Idp) where
  unfoldable pub patch_account_info :
      WorkspaceClient W → String → IdentityProviderConfiguration → Exec W (Unit {0})
  patch_account_info cl name idp = do
    info ← context "failed to get accountInfo" (cl.get_account_info "account")
    if oidc_equal info.oidc (desired_oidc i name idp)
        then pure tt
        else context "failed to patch accountInfo"
            (cl.patch_account_info (record info { oidc = some (desired_oidc i name idp) }))

module _ {W : Type 0} (i : Idp) (limiter : Limiter W) where
  -- What follows once the configuration was written and read again.
  unfoldable pub finish :
      WorkspaceClient W → String → IdentityProviderConfiguration → Exec W Outcome
  finish cl name idp =
      if idp.ready
      then if is_empty idp.clients || is_empty idp.managed_clients
        then raise (fail "IdentityProviderConfiguration has no clients in spec or status")
        else (do
          check_clients idp.managed_clients idp.clients
          limiter.forget idp.name
          context "unable to update accountInfo" (patch_account_info i cl name idp)
          pure done)
      else (do delay ← limiter.when idp.name; pure (requeue delay "idp resource is not ready yet"))

  abbrev pub provide : WorkspaceClient W → OrgsClient W → String → Exec W Outcome
  provide cl orgs name = do
    context "failed to create idp resource" (orgs.create_or_patch name (mutate i name))
    idp ← context "failed to get idp resource" (orgs.get_idp name)
    finish cl name idp

module _ {W : Type 0} (i : Idp) (cluster_from_context : Exec W (WorkspaceClient W))
    (new_client_for_logical_cluster : String → Exec W (OrgsClient W)) (limiter : Limiter W) where
  unfoldable pub reconcile : LogicalCluster → Exec W Outcome
  reconcile lc =
      let name = get_workspace_name lc in
      if name == "" then raise (fail "failed to get workspace name") else (do
        cl ← context "failed to get cluster from context" cluster_from_context
        orgs ← context "getting orgs client" (new_client_for_logical_cluster "root:orgs")
        a ← context "failed to get account resource" (orgs.get_account name)
        elim a.account_type [ org ↦ provide i limiter cl orgs name | account ↦ pure done ])
