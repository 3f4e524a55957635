-- ===== src/Tests/Workspaces.antt =====
-- internal/subroutine/workspace_authorization.go at concrete inputs.
use security_operator.Prelude.{
  String, List, [], ◌∷◌, Option, none, some, Exec, Result, ok, pure, ◌≡◌, refl, sym, ◌∙◌, arith, ap,
  ◌==◌, eq_iff, map, if◌then◌else◌, true, false,
}
use security_operator.Prelude.Text.{split}
use security_operator.Kube.{LogicalCluster, AccountInfo, AccountLocation, org}
use security_operator.Idp.{get_workspace_name}
use security_operator.Workspace.Authentication.{
  WorkspaceType, OrgsClient, Config, JwtAuthenticator, with_configurations, same_names, patch_each,
  patch_workspace_types, audiences_of, reconcile,
}
use security_operator.Workspace.Authentication.Types.{TypeLaws}
use security_operator.Workspace.Authentication.Reconcile.{
  AuthenticationLaws, Done, reconcile-Accepts,
}

-- The world is the configurations, and the workspace types of one organisation.
abbrev World : Type 0
World = (String → Option (List JwtAuthenticator)) × List WorkspaceType

abbrev write : String → List JwtAuthenticator → Exec World (Unit {0})
write name spec w = (ok tt, ((λ n. if n == name then some spec else w.0 n), w.1))

abbrev patch : WorkspaceType → Exec World (Unit {0})
patch t w = (
  ok tt,
  (
    w.0,
    map (λ u. if u.name == t.name then with_configurations t.authentication_configurations u else u)
        w.1,
  ),
)

abbrev client : OrgsClient World
client = record {
  create_or_update_authentication = write;
  list_workspace_types = λ org w. (ok w.1, w);
  patch_workspace_type = patch;
}

all_listed :
    (ts : List WorkspaceType) (w : World)
    → ◌≡◌ {A = Result (List WorkspaceType)} (ok w.1) (ok ts)
    → ts ≡ w.1
all_listed ts w h = ground (arith, h)

abbrev type_laws : TypeLaws client
type_laws = record {
  types = λ w org. w.1;
  listed = λ org ts w h. (all_listed ts w h, refl);
  patched = λ org names t w h. refl;
}

written :
    (name : String) (spec : List JwtAuthenticator) (w : World)
    → (write name spec w).1.0 name ≡ some spec
written name spec w = ground (arith, eq_iff name name)

abbrev laws : AuthenticationLaws client
laws = record {
  on_types = type_laws;
  configured = λ w name. w.0 name;
  created = λ name spec w h. written name spec w;
  kept_by_list = λ org name w. refl;
  kept_by_patch = λ t name w. refl;
}

abbrev type_of : String → List String → WorkspaceType
type_of name configurations = record { name = name; authentication_configurations = configurations }

abbrev before : World
before = ((λ name. none), type_of "acme-acc" ("acme" ∷ []) ∷ type_of "acme-org" ("old" ∷ []) ∷ [])

abbrev cfg : Config
cfg = record {
  domain_ca_lookup = true;
  base_domain = "portal.test";
  additional_audiences = "extra" ∷ [];
  group_claim = "groups";
  user_claim = "email";
  development_allow_unverified_emails = false;
}

abbrev location : AccountLocation
location = record {
  name = "acme";
  account_type = org;
  origin_cluster_id = "c0";
  generated_cluster_id = "c1";
}

abbrev info : AccountInfo
info = record {
  account = location;
  organization = location;
  oidc = some (record { issuer_url = "u"; clients = ("portal", "id1") ∷ ("kubectl", "id2") ∷ [] });
}

abbrev lc : LogicalCluster
lc = record {
  path = some "root:orgs:acme";
  cluster = none;
  owner_cluster = "c0";
  owner_name = "acme";
  initializers = [];
  status_initializers = [];
}

abbrev get : String → Exec World AccountInfo
get name = pure info

succeeds : (reconcile cfg (pure "ca") (pure get) (λ cluster. pure client) lc before).0 ≡ ok tt
unfolding reconcile get_workspace_name split audiences_of patch_workspace_types patch_each
    same_names
succeeds = refl

-- The value of a result, and another one where there is none.
abbrev value_or : {A : Type 0} → A → Result A → A
value_or d (Result.ok a) = a
value_or d (Result.err e) = d
value_or d (Result.crash s) = d

same_info :
    (g : String → Exec World AccountInfo) (i : AccountInfo) (v : World)
    → ◌≡◌ {A = Result (String → Exec World AccountInfo)} (ok get) (ok g)
    → (g "account" v).0 ≡ ok i
    → i ≡ info
same_info g i v got read =
    let same = ap (λ r. value_or get r) got in
    ap (λ r. value_or info r) (sym read ∙ sym (ap (λ f. (f "account" v).0) same))

same_client :
    (o : OrgsClient World) → ◌≡◌ {A = Result (OrgsClient World)} (ok client) (ok o) → o ≡ client
same_client o e = sym (ap (λ r. value_or client r) e)

reconcile-Accepts_example :
    Done client laws cfg
      (pure "ca")
      (pure get)
      (λ cluster. pure client)
      lc
      info
      (reconcile cfg (pure "ca") (pure get) (λ cluster. pure client) lc before).1
reconcile-Accepts_example =
    reconcile-Accepts client laws cfg (pure "ca") (pure get) (λ cluster. pure client) lc info
      (λ g i u v got read. same_info g i v got read) (λ o u e. same_client o e) before succeeds
