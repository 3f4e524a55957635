-- ===== src/Subroutine/ApiExportPolicy.antt =====
-- internal/subroutine/apiexportpolicy.go: who may bind an APIExport, as tuples in the stores of
-- the organisations.
pub mod Parse
pub mod Laws
pub mod Effects
use security_operator.Prelude.{
  ℕ, String, Bool, List, [], ◌∷◌, Option, none, some, Exec, Result, ok, err, Error, fail, pure,
  raise, lift, context, ◌>>=◌, ◌>>◌, ◌==◌, any, not, if◌then◌else◌,
}
use security_operator.Prelude.Text.{concat, has_prefix, has_suffix, trim_prefix, trim_suffix}
use security_operator.Config.{core_provider_name, multi_provider_name}
use security_operator.Api.{Tuple, ApiExportPolicy}
use security_operator.Kube.{
  LogicalCluster, AccountInfo, AccountType, org, account, KcpClientGetter, Lister, Client,
}
use security_operator.Fga.Service.{OpenFga}
use security_operator.Fga.Manager.{TupleManager, authorization_model_id_latest, apply, delete}

abbrev pub orgs_workspace_path : String
orgs_workspace_path = "root:orgs"

abbrev pub bind_relation : String
bind_relation = "bind"

abbrev pub bind_inherited_relation : String
bind_inherited_relation = "bind_inherited"

-- The workspace path and the relation of an expression.
unfoldable pub parse_allow_expression : String → Result (String × String)
parse_allow_expression expression =
    let expr = trim_prefix expression ":" in
    if not (has_prefix expr "root:orgs:")
    then err (fail "invalid path expression: must start with root:orgs")
    else if has_suffix expr ":*"
    then ok (trim_suffix expr ":*", bind_inherited_relation)
    else ok (expr, bind_relation)

unfoldable pub is_type_org : AccountInfo → Bool
is_type_org ai = elim (ai.account).account_type [ org ↦ Bool.true | account ↦ Bool.false ]

-- The tuple by which an APIExport of the provider is bound from an account.
unfoldable pub policy_tuple : String → String → String → AccountInfo → Tuple
policy_tuple provider_cluster_id export_name relation ai = record {
  object = concat (
      "core_platform-mesh_io_account:"
      ∷ (ai.account).origin_cluster_id
      ∷ "/"
      ∷ (ai.account).name
      ∷ []);
  relation = relation;
  user = concat ("apis_kcp_io_apiexport:" ∷ provider_cluster_id ∷ "/" ∷ export_name ∷ []);
}

abbrev latest : String → TupleManager
latest store_id = record {
  store_id = store_id;
  authorization_model_id = authorization_model_id_latest;
}

abbrev annotated : {W : Type 0} → Option String → Exec W String
annotated none = raise (fail "kcp.io/cluster annotation not found on logical cluster")
annotated (some id) = pure id

-- The managed expressions that the spec no longer has.
unfoldable pub removed_expressions : List String → List String → List String
removed_expressions spec [] = []
removed_expressions spec (e ∷ es) =
    if any (λ x. x == e) spec then removed_expressions spec es else e ∷ removed_expressions spec es

module _ {W : Type 0} (fga : OpenFga W) (kcp : KcpClientGetter W) (lister : Lister W)
    (get_store_id : String → Exec W String) where
  unfoldable pub get_cluster_id_from_path : String → Exec W String
  get_cluster_id_from_path path = do
    cl ←
        context "getting client for workspace"
          (kcp.new_client_for_logical_cluster (multi_provider_name core_provider_name path))
    lc ← context "getting logical cluster for path" (cl.get_logical_cluster "cluster")
    annotated lc.cluster

  unfoldable pub account_info_at : String → Exec W AccountInfo
  account_info_at path = do
    cl ←
        context "getting client for workspace"
          (kcp.new_client_for_logical_cluster (multi_provider_name core_provider_name path))
    context "getting AccountInfo for workspace" (cl.get_account_info "account")

  unfoldable pub apply_to : AccountInfo → (AccountInfo → Tuple) → Exec W (Unit {0})
  apply_to ai tuple = do
    store_id ← context "getting store ID for org" (get_store_id (ai.organization).name)
    context "applying tuple for expression" (apply fga (latest store_id) (tuple ai ∷ []))

  -- For the workspace of all organisations: one tuple in the store of each organisation.
  unfoldable pub apply_to_orgs : List AccountInfo → (AccountInfo → Tuple) → Exec W (Unit {0})
  unfolding apply_to
  apply_to_orgs [] tuple = pure tt
  apply_to_orgs (ai ∷ ais) tuple =
      let rest = apply_to_orgs ais tuple in
      if is_type_org ai then (do apply_to ai tuple; rest) else rest

  abbrev pub at_targets :
      (AccountInfo → (AccountInfo → Tuple) → Exec W (Unit {0}))
      → (List AccountInfo → (AccountInfo → Tuple) → Exec W (Unit {0}))
      → String
      → (AccountInfo → Tuple)
      → Exec W (Unit {0})
  at_targets one all workspace_path tuple =
      if workspace_path == orgs_workspace_path
      then (do
        ais ← context "listing AccountInfo resources" lister.list_account_infos
        all ais tuple)
      else (do ai ← account_info_at workspace_path; one ai tuple)

  -- One round of the loop of `Process`.
  unfoldable pub apply_expression : String → String → String → Exec W (Unit {0})
  apply_expression provider_cluster_id export_name expression = do
    parsed ← context "parsing allow expression" (lift (parse_allow_expression expression))
    at_targets apply_to apply_to_orgs parsed.0
        (policy_tuple provider_cluster_id export_name parsed.1)

  unfoldable pub delete_from : AccountInfo → (AccountInfo → Tuple) → Exec W (Unit {0})
  delete_from ai tuple = do
    store_id ← context "getting store ID for org" (get_store_id (ai.organization).name)
    context "removing tuples" (delete fga (latest store_id) (tuple ai ∷ []))

  -- Here the type of the accounts is not looked at.
  unfoldable pub delete_from_all : List AccountInfo → (AccountInfo → Tuple) → Exec W (Unit {0})
  unfolding delete_from
  delete_from_all [] tuple = pure tt
  delete_from_all (ai ∷ ais) tuple = do delete_from ai tuple; delete_from_all ais tuple

  unfoldable pub delete_tuples_for_expression : String → String → String → Exec W (Unit {0})
  delete_tuples_for_expression provider_cluster_id export_name expression = do
    parsed ← context "parsing expression" (lift (parse_allow_expression expression))
    at_targets delete_from delete_from_all parsed.0
        (policy_tuple provider_cluster_id export_name parsed.1)

  unfoldable pub delete_all : String → String → List String → Exec W (Unit {0})
  delete_all provider_cluster_id export_name [] = pure tt
  delete_all provider_cluster_id export_name (e ∷ es) = do
    context "deleting tuples for expression"
        (delete_tuples_for_expression provider_cluster_id export_name e)
    delete_all provider_cluster_id export_name es

  unfoldable pub apply_all : String → String → List String → Exec W (Unit {0})
  apply_all provider_cluster_id export_name [] = pure tt
  apply_all provider_cluster_id export_name (e ∷ es) = do
    apply_expression provider_cluster_id export_name e
    apply_all provider_cluster_id export_name es

  unfoldable pub delete_removed_expressions : ApiExportPolicy → Exec W (Unit {0})
  delete_removed_expressions policy = do
    provider_cluster_id ←
        context "getting provider cluster ID"
          (get_cluster_id_from_path (policy.api_export_ref).cluster_path)
    delete_all provider_cluster_id (policy.api_export_ref).name
        (removed_expressions policy.allow_path_expressions policy.managed_allow_expressions)

  unfoldable pub patch_status : ApiExportPolicy → Exec W (Unit {0})
  patch_status policy = do
    cl ← context "failed to get cluster from context" kcp.new_client_from_context
    context "failed to patch APIExportPolicy status" (cl.patch_policy_status policy)

  -- The policy is returned with its new status.
  unfoldable pub process : ApiExportPolicy → Exec W ApiExportPolicy
  process policy = do
    provider_cluster_id ←
        context "getting provider cluster ID"
          (get_cluster_id_from_path (policy.api_export_ref).cluster_path)
    context "removing tuples for policy" (delete_removed_expressions policy)
    apply_all provider_cluster_id (policy.api_export_ref).name policy.allow_path_expressions
    let done : ApiExportPolicy = record policy {
      managed_allow_expressions = policy.allow_path_expressions;
    }
    patch_status done
    pure done

  unfoldable pub finalize : ApiExportPolicy → Exec W (Unit {0})
  finalize policy = do
    provider_cluster_id ←
        context "getting provider cluster ID"
          (get_cluster_id_from_path (policy.api_export_ref).cluster_path)
    delete_all provider_cluster_id (policy.api_export_ref).name policy.allow_path_expressions
