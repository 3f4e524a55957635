-- ===== src/Controllers.antt =====
-- internal/controller and internal/terminatingworkspaces: which APIExportPolicies are reconciled
-- again when an organisation becomes ready, the clusters that are watched, and the endpoints of the workspaces that are deleted.
pub mod Policies
use security_operator.Prelude.{
  String, Bool, List, [], ◌∷◌, Exec, Result, ok, err, crash, pure, panic, attempt, ◌>>=◌, ◌==◌,
  ◌&&◌, not, any, map, filter, if◌then◌else◌, true, false,
}
use security_operator.Prelude.Text.{trim_prefix, has_prefix, contains}
use security_operator.Api.{ApiExportPolicy}
use security_operator.Config.{
  core_provider_name, system_provider_name, multi_provider_name, orgs_cluster_path,
}
use security_operator.Kube.{AccountType, org, account}

-- A policy that is listed comes with the logical cluster in which it is.
pub record Located : Type 0 where
  pub policy : ApiExportPolicy
  pub cluster : String

pub record Request : Type 0 where
  pub name : String
  pub cluster_name : String

-- The two watches by the name of the cluster.
abbrev pub watches_policies : String → Bool
watches_policies cluster_name = has_prefix cluster_name system_provider_name

abbrev pub watches_accounts : String → Bool
watches_accounts cluster_name = has_prefix cluster_name core_provider_name

unfoldable pub is_wildcard : String → Bool
is_wildcard expr = trim_prefix expr ":" == "root:orgs:*"

abbrev pub request_of : Located → Request
request_of l = record {
  name = l.policy.name;
  cluster_name = multi_provider_name system_provider_name l.cluster;
}

-- The loop over the policies, which leaves the expressions of a policy at the first that fits.
unfoldable pub requests_for : List Located → List Request
unfolding is_wildcard
requests_for [] = []
requests_for (l ∷ ls) =
    let rest = requests_for ls in
    if any is_wildcard l.policy.allow_path_expressions then request_of l ∷ rest else rest

module _ {W : Type 0} (get_cluster : String → Exec W (Exec W (List Located))) where
  abbrev requests_if_listed : Result (List Located) → Exec W (List Request)
  requests_if_listed (Result.ok ls) = pure (requests_for ls)
  requests_if_listed (Result.err e) = pure []
  requests_if_listed (Result.crash s) = panic s

  abbrev list_policies : Result (Exec W (List Located)) → Exec W (List Request)
  list_policies (Result.ok list) = do listed ← attempt list; requests_if_listed listed
  list_policies (Result.err e) = pure []
  list_policies (Result.crash s) = panic s

  -- `get_cluster` gives a cluster as its list of policies. Errors are logged.
  unfoldable pub enqueue_all_api_export_policies : Exec W (List Request)
  unfolding requests_for
  enqueue_all_api_export_policies = do
    found ← attempt (get_cluster (multi_provider_name system_provider_name orgs_cluster_path))
    list_policies found

  -- What an Account leads to; `ready` is that its condition Ready is true.
  unfoldable pub requests_of_account : AccountType → Bool → Exec W (List Request)
  requests_of_account org ready = if ready then enqueue_all_api_export_policies else pure []
  requests_of_account account ready = pure []

-- The endpoints of a workspace type that are for the workspaces in deletion.
unfoldable pub extract_urls : List String → List String
extract_urls [] = []
extract_urls (url ∷ urls) =
    let rest = extract_urls urls in
    if not (contains url "/terminatingworkspaces/") then rest else url ∷ rest
