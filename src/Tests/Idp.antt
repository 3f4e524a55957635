-- ===== src/Tests/Idp.antt =====
-- The identity provider of an organisation, in worlds that hold an AccountInfo.
use security_operator.Prelude.{String, List, ◌∷◌, none, some, ok, pure, ◌≡◌, ◌⊎◌, refl, true, arith}
use security_operator.Prelude.Text.{split}
use security_operator.Api.{IdentityProviderConfiguration, public, SecretReference, ManagedClient}
use security_operator.Kube.{
  LogicalCluster, AccountInfo, AccountLocation, AccountType, org, account, done, Limiter,
}
use security_operator.Idp.{
  Idp, OrgsClient, WorkspaceClient, get_workspace_name, mutate, portal_client, kubectl_client,
  ensure_client, patch_account_info, finish, reconcile, oidc_equal, check_clients, is_empty,
}
use security_operator.Idp.Clients.{named, named-mutate, wanted}
use security_operator.Idp.Laws.{InfoLaws, HasOidc, patch_account_info-HasOidc}
use security_operator.Idp.Reconcile.{Provided, World, reconcile-Provided}

abbrev lc : LogicalCluster
lc = record {
  path = some "root:orgs:acme";
  cluster = none;
  owner_cluster = "";
  owner_name = "";
  initializers = List.[];
  status_initializers = List.[];
}

abbrev settings : Idp
settings = record {
  additional_redirect_urls = "https://local/*" ∷ List.[];
  kubectl_client_redirect_urls = "http://localhost:8000" ∷ List.[];
  base_domain = "example.com";
  registration_allowed = true;
}

abbrev secret : SecretReference
secret = record { name = "s"; namespace = "default" }

abbrev config : IdentityProviderConfiguration
config = record {
  name = "acme";
  registration_allowed = true;
  clients =
      record {
        client_type = public;
        client_name = "extra";
        redirect_uris = List.[];
        post_logout_redirect_uris = List.[];
        secret_ref = secret;
      }
      ∷ List.[];
  ready = true;
  managed_clients =
      ("extra", record { client_id = "id1"; registration_client_uri = "uri"; secret_ref = secret })
      ∷ List.[];
}

named-mutate_example :
    (named "extra" (mutate settings "acme" config).clients
      ≡ wanted settings "acme" "extra" (named "extra" config.clients))
    × ((mutate settings "acme" config).registration_allowed ≡ true)
named-mutate_example = named-mutate settings "acme" "extra" config

abbrev place : AccountLocation
place = record {
  name = "acme";
  account_type = org;
  origin_cluster_id = "oc";
  generated_cluster_id = "gc";
}

abbrev before : AccountInfo
before = record { account = place; organization = place; oidc = none }

-- The world is the AccountInfo and the configuration.
abbrev State : Type 0
State = AccountInfo × IdentityProviderConfiguration

abbrev workspace : WorkspaceClient State
workspace = record {
  get_account_info = λ name w. (ok w.0, w);
  patch_account_info = λ a w. (ok tt, (a, w.1));
}

abbrev laws : InfoLaws workspace
laws = record {
  info = λ w. w.0;
  got = λ w a called. (ground (arith, called), refl);
  patched = λ w a called. refl;
}

abbrev limiter : Limiter State
limiter = record { when = λ name. pure 5; forget = λ name. pure tt }

abbrev orgs : OrgsClient State
orgs = record {
  get_account = λ name. pure (record { account_type = org; creator = none });
  create_or_patch = λ name f w. (ok tt, (w.0, f w.1));
  get_idp = λ name w. (ok w.1, w);
}

abbrev start : State
start = (before, config)

patched : (patch_account_info settings workspace "acme" config start).0 ≡ ok tt
unfolding patch_account_info oidc_equal
patched = refl

patch_account_info-HasOidc_example :
    HasOidc settings "acme" config (patch_account_info settings workspace "acme" config start).1.0
    × ((patch_account_info settings workspace "acme" config start).1.0.account ≡ before.account)
    × ((patch_account_info settings workspace "acme" config start).1.0.organization
        ≡ before.organization)
patch_account_info-HasOidc_example =
    patch_account_info-HasOidc settings workspace laws "acme" config start patched

-- The configuration after the controller of the clients has run once: all are managed.
abbrev managed : String → String × ManagedClient
managed name =
    (name, record { client_id = "id"; registration_client_uri = "uri"; secret_ref = secret })

abbrev settled : State
settled = (
  before,
  record config {
    managed_clients = managed "acme" ∷ managed "kubectl" ∷ managed "extra" ∷ List.[];
  },
)

reconciled :
    (reconcile settings (pure workspace) (λ path. pure orgs) limiter lc settled).0 ≡ ok done
unfolding reconcile finish patch_account_info oidc_equal check_clients is_empty get_workspace_name
    split mutate ensure_client portal_client kubectl_client
reconciled = refl

abbrev world :
    World settings workspace laws limiter
      (pure workspace)
      (λ path. pure orgs)
      (get_workspace_name lc)
world = record {
  orgs = orgs;
  acc = record { account_type = org; creator = none };
  stored = λ w. w.1;
  cluster_ok = λ u c called. ground (arith, called);
  orgs_ok = λ u o called. ground (arith, called);
  account_ok = λ u a called. ground (arith, called);
  written = λ f u called. refl;
  read = λ u x called. ground (arith, called);
  cluster_quiet = λ u. refl;
  orgs_quiet = λ u. refl;
  account_quiet = λ u. refl;
  read_quiet = λ u. refl;
  forget_quiet = λ n u. refl;
  info_quiet = λ u. refl;
  patch_quiet = λ a u. refl;
}

reconcile-Provided_example :
    let after = (reconcile settings (pure workspace) (λ path. pure orgs) limiter lc settled).1 in
    (◌≡◌ {A = AccountType} org account)
    ⊎ (Provided settings workspace laws limiter (get_workspace_name lc) after.1 after
        × ((n : String)
            → named n (after.1).clients
              ≡ wanted settings (get_workspace_name lc) n (named n (settled.1).clients)))
reconcile-Provided_example =
    reconcile-Provided settings workspace laws limiter (pure workspace) (λ path. pure orgs) lc
      settled world reconciled
