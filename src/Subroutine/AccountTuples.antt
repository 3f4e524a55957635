-- ===== src/Subroutine/AccountTuples.antt =====
-- internal/subroutine/account_tuples.go: the tuples of an account, written when its workspace is
-- initialised or reconciled, and deleted when it is terminated.
pub mod Laws
use security_operator.Prelude.{
  ℕ, String, Bool, List, [], ◌∷◌, ◌++◌, Option, none, some, Exec, Error, fail, pure, raise, lift,
  context, ◌>>=◌, ◌>>◌, ◌==◌, if◌then◌else◌,
}
use security_operator.Prelude.Text.{has_prefix, trim_suffix}
use security_operator.Api.{Tuple}
use security_operator.Kube.{LogicalCluster, Account, Client, KcpClientGetter}
use security_operator.AccountPath.{PathLib, new_account_path_from_logical_cluster, org}
use security_operator.Fga.Service.{OpenFga}
use security_operator.Fga.Tuples.{
  BaseTuplesInput, InitialTuplesForAccountInput, initial_tuples_for_account, render_role_prefix,
  referencing_account_tuple_key,
}
use security_operator.Fga.Manager.{
  TupleManager, authorization_model_id_latest, apply, delete, list_with_key,
}
use security_operator.Fga.Manager.Listing.{object_key}

pub record Config : Type 0 where
  pub object_type : String
  pub parent_relation : String
  pub creator_relation : String

abbrev pub latest : String → TupleManager
latest store_id = record {
  store_id = store_id;
  authorization_model_id = authorization_model_id_latest;
}

abbrev creator_of : {W : Type 0} → Account → Exec W String
creator_of acc = elim acc.creator [
  | none ↦ raise (fail "account creator is nil or empty")
  | some c ↦ if c == "" then raise (fail "account creator is nil or empty") else pure c
]

-- The annotation kcp.io/cluster; an empty one counts as not set.
abbrev cluster_id_of : {W : Type 0} → LogicalCluster → Exec W (String × LogicalCluster)
cluster_id_of lc = elim lc.cluster [
  | none ↦ raise (fail "cluster-annotation kcp.io/cluster on LogicalCluster is not set")
  | some id ↦
      if id == ""
      then raise (fail "cluster-annotation kcp.io/cluster on LogicalCluster is not set")
      else pure (id, lc)
]

module _ {W P : Type 0} (fga : OpenFga W) (lib : PathLib P) (kcp : KcpClientGetter W)
    (get_store_id : String → Exec W String) (cfg : Config) where
  unfoldable pub cluster_and_id_from_logical_cluster_for_path : P → Exec W (String × LogicalCluster)
  cluster_and_id_from_logical_cluster_for_path p = do
    cl ←
        context "getting account cluster client"
          (kcp.new_client_for_logical_cluster (lib.to_string p))
    lc ← context "getting account's LogicalCluster" (cl.get_logical_cluster "cluster")
    cluster_id_of lc

  unfoldable pub reconcile : LogicalCluster → Exec W (Unit {0})
  unfolding cluster_and_id_from_logical_cluster_for_path
  reconcile lc = do
    account_path ←
        context "getting AccountPath from LogicalCluster"
          (lift (new_account_path_from_logical_cluster lib lc))
    organization ← lift (org lib account_path)
    store_id ← context "getting store ID" (get_store_id (lib.base organization))
    let parent_path = (lib.parent account_path).0
    parent ←
        context "getting parent account's LogicalCluster"
          (cluster_and_id_from_logical_cluster_for_path parent_path)
    cl ←
        context "getting client for parent account cluster"
          (kcp.new_client_for_logical_cluster (lib.to_string parent_path))
    acc ←
        context "getting Account in parent account cluster" (cl.get_account (lib.base account_path))
    creator ← creator_of acc
    tuples ← context "building tuples for account" (
        lift (
          initial_tuples_for_account (record {
            base = record {
              creator = creator;
              account_origin_cluster_id = parent.0;
              account_name = lib.base account_path;
              creator_relation = cfg.creator_relation;
              object_type = cfg.object_type;
            };
            parent_origin_cluster_id = (parent.1).owner_cluster;
            parent_name = lib.base parent_path;
            parent_relation = cfg.parent_relation;
          })))
    context "applying tuples for Account" (apply fga (latest store_id) tuples)

  -- For each tuple of the account whose user belongs to a role of the account, the tuples of the role.
  unfoldable pub role_references : ℕ → TupleManager → String → List Tuple → Exec W (List Tuple)
  role_references fuel tm role_prefix [] = pure []
  role_references fuel tm role_prefix (t ∷ ts) =
      let others = role_references fuel tm role_prefix ts in
      if has_prefix t.user role_prefix
      then (do
        refs ←
            context "listing tuples for role"
              (list_with_key fga fuel tm (object_key (trim_suffix t.user "#assignee")))
        more ← others
        pure (refs ++ more))
      else others

  -- The second half of `Terminate`: the tuples of the account and of its roles are collected and
  -- deleted.
  unfoldable pub delete_account_tuples : ℕ → TupleManager → String → String → Exec W (Unit {0})
  unfolding role_references
  delete_account_tuples fuel tm cluster_id name = do
    account_references ←
        context "listing tuples referencing Account" (
          list_with_key fga fuel tm (referencing_account_tuple_key cfg.object_type cluster_id name))
    roles ←
        role_references fuel tm (render_role_prefix cfg.object_type cluster_id name)
          account_references
    context "deleting tuples for Account" (delete fga tm (account_references ++ roles))

  unfoldable pub terminate : ℕ → LogicalCluster → Exec W (Unit {0})
  unfolding cluster_and_id_from_logical_cluster_for_path delete_account_tuples
  terminate fuel lc = do
    account_path ←
        context "getting AccountPath from LogicalCluster"
          (lift (new_account_path_from_logical_cluster lib lc))
    parent ←
        context "getting parent account's LogicalCluster"
          (cluster_and_id_from_logical_cluster_for_path (lib.parent account_path).0)
    organization ← lift (org lib account_path)
    store_id ← context "getting store ID" (get_store_id (lib.base organization))
    delete_account_tuples fuel (latest store_id) parent.0 (lib.base account_path)
