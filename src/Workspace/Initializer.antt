-- ===== src/Workspace/Initializer.antt =====
-- internal/subroutine/workspace_initializer.go: the Store of a new organisation.
pub mod StoreRun
pub mod Converge
use security_operator.Prelude.{
  String, Bool, List, [], ◌∷◌, ◌++◌, Option, none, some, Exec, Error, Result, wrap, fail, pure,
  raise, panic, lift, context, attempt, is_not_found, ◌>>=◌, ◌>>◌, ◌==◌, any, not, if◌then◌else◌,
}
use security_operator.Prelude.Text.{concat}
use security_operator.Api.{Tuple, contains_tuple, Store}
use security_operator.Kube.{LogicalCluster, Account, AccountInfo, Outcome, done, requeue}
use security_operator.Fga.Tuples.{BaseTuplesInput, tuples_for_organization}
use security_operator.Idp.{get_workspace_name}

-- controllerutil.OperationResult; `other` are those that patch a status.
pub data Operation : Type 0 where
  unchanged created updated other : Operation

-- What is called on the client of the workspace's cluster, and on that of root:orgs.
pub record WorkspaceClient (W : Type 0) : Type 0 where
  pub get_account_info : String → Exec W AccountInfo

pub record OrgsClient (W : Type 0) : Type 0 where
  pub get_account : String → Exec W Account
  pub create_or_update_store : String → (Store → Store) → Exec W (Operation × Store)

pub record WorkspaceInitializer : Type 0 where
  pub core_module : String
  pub object_type : String
  pub creator_relation : String
  pub allow_member_tuples_enabled : Bool

-- The tuples that make every authenticated user a member.
unfoldable pub member_tuples : WorkspaceInitializer → LogicalCluster → List Tuple
member_tuples i lc =
    if i.allow_member_tuples_enabled
    then record { object = "role:authenticated"; relation = "assignee"; user = "user:*" }
      ∷ record {
        object =
            concat ("core_platform-mesh_io_account:" ∷ lc.owner_cluster ∷ "/" ∷ lc.owner_name ∷ []);
        relation = "member";
        user = "role:authenticated#assignee";
      }
      ∷ []
    else []

abbrev pub tuples_input : WorkspaceInitializer → AccountInfo → String → BaseTuplesInput
tuples_input i info creator = record {
  creator = creator;
  account_origin_cluster_id = (info.account).origin_cluster_id;
  account_name = (info.account).name;
  creator_relation = i.creator_relation;
  object_type = i.object_type;
}

-- The spec that the Store is to have.
abbrev pub with_spec : WorkspaceInitializer → List Tuple → Store → Store
with_spec i tuples s = record s { spec = record { core_module = i.core_module; tuples = tuples } }

abbrev pub creator_of : {W : Type 0} → Option String → Exec W String
creator_of none = raise (fail "account creator is nil or empty")
creator_of (some creator) =
    if creator == "" then raise (fail "account creator is nil or empty") else pure creator

-- What the run says of the Store that it created, updated or found.
unfoldable pub check_store : List Tuple → Operation → Store → Outcome
check_store tuples created s = requeue 5 "store needed to be updated, requeueing"
check_store tuples updated s = requeue 5 "store needed to be updated, requeueing"
check_store tuples op s =
    if any (λ t. not (contains_tuple t s.status.managed_tuples)) tuples
    then requeue 5 "store does not yet contain all specified tuples, requeueing"
    else if s.status.store_id == ""
    then requeue 5 "store id is empty"
    else done

module _ {W : Type 0} (i : WorkspaceInitializer) (cluster_from_context : Exec W (WorkspaceClient W))
    (new_client_for_logical_cluster : String → Exec W (OrgsClient W)) where
  -- `generateStoreName` is `getWorkspaceName`.
  unfoldable pub ensure_store : LogicalCluster → AccountInfo → Exec W Outcome
  ensure_store lc info = do
    orgs ← context "getting orgs client" (new_client_for_logical_cluster "root:orgs")
    acc ← context "getting Account in platform-mesh-system" (orgs.get_account (info.account).name)
    creator ← creator_of acc.creator
    base ←
        context "building tuples for organization"
          (lift (tuples_for_organization (tuples_input i info creator)))
    let tuples : List Tuple = base ++ member_tuples i lc
    result ←
        context "unable to create/update store"
          (orgs.create_or_update_store (get_workspace_name lc) (with_spec i tuples))
    pure (check_store tuples result.0 result.1)

  -- Without an AccountInfo the run is repeated.
  abbrev pub with_account_info : LogicalCluster → Result AccountInfo → Exec W Outcome
  with_account_info lc (Result.ok info) = ensure_store lc info
  with_account_info lc (Result.err e) =
      if is_not_found e
      then pure (requeue 5 "AccountInfo not found yet, requeueing")
      else raise (wrap "getting AccountInfo for LogicalCluster" e)
  with_account_info lc (Result.crash s) = panic s

  unfoldable pub reconcile : LogicalCluster → Exec W Outcome
  reconcile lc = do
    cl ← context "failed to get cluster from context" cluster_from_context
    info ← attempt (cl.get_account_info "account")
    with_account_info lc info
