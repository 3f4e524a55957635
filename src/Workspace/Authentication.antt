-- ===== src/Workspace/Authentication.antt =====
-- internal/subroutine/workspace_authorization.go: how the workspaces of an organisation accept the
-- tokens of its identity provider.
pub mod Types
pub mod Reconcile
use security_operator.Prelude.{
  String, Bool, List, [], ◌∷◌, ◌++◌, Option, none, some, Exec, Error, fail, pure, raise, context,
  ◌>>=◌, ◌>>◌, ◌==◌, ◌&&◌, map, if◌then◌else◌, true, false,
}
use security_operator.Prelude.Text.{concat}
use security_operator.Kube.{LogicalCluster, AccountInfo, OidcInfo}
use security_operator.Idp.{get_workspace_name}

-- `prefix` is a pointer.
pub record PrefixedClaimOrExpression : Type 0 where
  pub claim : String
  pub prefix : Option String
  pub expression : String

pub record ClaimValidationRule : Type 0 where
  pub expression : String
  pub message : String

pub data AudienceMatchPolicy : Type 0 where
  match_any : AudienceMatchPolicy

pub record Issuer : Type 0 where
  pub url : String
  pub certificate_authority : String
  pub audience_match_policy : AudienceMatchPolicy
  pub audiences : List String

pub record JwtAuthenticator : Type 0 where
  pub issuer : Issuer
  pub groups : PrefixedClaimOrExpression
  pub username : PrefixedClaimOrExpression
  pub claim_validation_rules : List ClaimValidationRule

-- The names of the authentication configurations of a workspace type.
pub record WorkspaceType : Type 0 where
  pub name : String
  pub authentication_configurations : List String

-- What is called on the client of root:orgs; the types are listed by the label of the organisation.
pub record OrgsClient (W : Type 0) : Type 0 where
  pub create_or_update_authentication : String → List JwtAuthenticator → Exec W (Unit {0})
  pub list_workspace_types : String → Exec W (List WorkspaceType)
  pub patch_workspace_type : WorkspaceType → Exec W (Unit {0})

pub record Config : Type 0 where
  pub domain_ca_lookup : Bool
  pub base_domain : String
  pub additional_audiences : List String
  pub group_claim : String
  pub user_claim : String
  pub development_allow_unverified_emails : Bool

-- The clients of the AccountInfo in the order in which the map gives them.
unfoldable pub audiences_of : List (String × String) → Option (List String)
audiences_of [] = some []
audiences_of (c ∷ cs) =
    let rest = audiences_of cs in
    if c.1 == "" then none else elim rest [ none ↦ none | some ids ↦ some (c.1 ∷ ids) ]

-- `equality.Semantic.DeepEqual` on lists of names.
unfoldable pub same_names : List String → List String → Bool
same_names [] [] = true
same_names [] (y ∷ ys) = false
same_names (x ∷ xs) [] = false
same_names (x ∷ xs) (y ∷ ys) = x == y && same_names xs ys

unfoldable pub jwt_authentication_configuration :
    Config → String → String → List String → JwtAuthenticator
jwt_authentication_configuration cfg workspace_name certificate audiences = record {
  issuer = record {
    url = concat ("https://" ∷ cfg.base_domain ∷ "/keycloak/realms/" ∷ workspace_name ∷ []);
    certificate_authority = if cfg.domain_ca_lookup then certificate else "";
    audience_match_policy = match_any;
    audiences = audiences;
  };
  groups = record { claim = cfg.group_claim; prefix = some ""; expression = "" };
  username =
      if cfg.development_allow_unverified_emails
      then record { claim = ""; prefix = none; expression = "claims.email" }
      else record { claim = cfg.user_claim; prefix = some ""; expression = "" };
  claim_validation_rules =
      if cfg.development_allow_unverified_emails
      then record {
        expression =
            "claims.?email_verified.orValue(true) == true || claims.?email_verified.orValue(true) == false";
        message = "Allowing both verified and unverified emails";
      }
        ∷ []
      else [];
}

abbrev pub with_configurations : List String → WorkspaceType → WorkspaceType
with_configurations names t = record t { authentication_configurations = names }

module _ {W : Type 0} (cl : OrgsClient W) where
  unfoldable pub patch_each : List String → List WorkspaceType → Exec W (Unit {0})
  unfolding same_names
  patch_each desired [] = pure tt
  patch_each desired (t ∷ ts) =
      let rest = patch_each desired ts in
      if same_names t.authentication_configurations desired then rest else (do
        context "failed to patch WorkspaceType"
            (cl.patch_workspace_type (with_configurations desired t))
        rest)

  unfoldable pub patch_workspace_types : String → Exec W (Unit {0})
  patch_workspace_types workspace_name = do
    types ← context "failed to list WorkspaceTypes" (cl.list_workspace_types workspace_name)
    patch_each (workspace_name ∷ []) types

abbrev pub oidc_clients : Option OidcInfo → List (String × String)
oidc_clients none = []
oidc_clients (some o) = o.clients

abbrev pub accepted_ids : {W : Type 0} → List String → Option (List String) → Exec W (List String)
accepted_ids additional none = raise (fail "OIDC client has empty ClientID in AccountInfo")
accepted_ids additional (some ids) = pure (ids ++ additional)

abbrev pub audiences : {W : Type 0} → List String → List (String × String) → Exec W (List String)
audiences additional [] = raise (fail "AccountInfo has no OIDC clients")
audiences additional (c ∷ cs) = accepted_ids additional (audiences_of (c ∷ cs))

module _ {W : Type 0} (cfg : Config) (get_domain_ca : Exec W String)
    (get_account_info : Exec W (String → Exec W AccountInfo))
    (new_client_for_logical_cluster : String → Exec W (OrgsClient W)) where
  -- The certificate of the secret, none unless it is asked for.
  abbrev pub certificate : Exec W String
  certificate =
      if cfg.domain_ca_lookup
      then context "failed to get domain CA secret" get_domain_ca
      else pure ""

  -- `get_account_info` is the client of the cluster of the context.
  unfoldable pub reconcile : LogicalCluster → Exec W (Unit {0})
  reconcile lc =
      let workspace_name = get_workspace_name lc in
      if workspace_name == "" then raise (fail "failed to get workspace path") else (do
        ca ← certificate
        get ← context "failed to get cluster from context" get_account_info
        info ← context "failed to get AccountInfo" (get "account")
        accepted ← audiences cfg.additional_audiences (oidc_clients info.oidc)
        orgs ← context "getting orgs client" (new_client_for_logical_cluster "root:orgs")
        context "failed to create WorkspaceAuthConfiguration resource" (
            orgs.create_or_update_authentication workspace_name
              (jwt_authentication_configuration cfg workspace_name ca accepted ∷ []))
        context "failed to patch workspace types" (patch_workspace_types orgs workspace_name))
