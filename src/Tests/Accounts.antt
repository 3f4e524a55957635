-- ===== src/Tests/Accounts.antt =====
-- internal/platformmesh and internal/subroutine/account_tuples.go at concrete inputs.
use security_operator.Prelude.{
  String, List, [], ◌∷◌, some, Exec, fail, pure, raise, ◌≡◌, refl, true, false,
}
use security_operator.Prelude.Text.{split, join, strip_prefix, strip_suffix, replace_all}
use security_operator.Api.{tuple_eq}
use security_operator.Kube.{LogicalCluster, account, Client, KcpClientGetter}
use security_operator.AccountPath.{
  PathLib, PathLaws, new_account_path, is_platform_mesh_account_path, is_org,
}
use security_operator.AccountPath
use security_operator.Fga.Tuples.{
  InitialTuplesForAccountInput, initial_tuples_for_account, render_account_entity,
  render_role_prefix, render_owner_role, render_owner_role_assignee_group, render_creator_user,
  format_user, referencing_account_tuple_key, creator_tuple, group_tuple, parent_tuple,
}
use security_operator.Fga.Manager.{TupleManager, apply, delete, list_with_key}
use security_operator.Subroutine.AccountTuples.{Config, reconcile, terminate, delete_account_tuples}
use security_operator.Subroutine.AccountTuples.Laws.{delete-apply, delete_account_tuples_lem}
use security_operator.Tests.Memory.{Memory, memory, memory_laws, memory_reads}

accounts : Unit {0}
unfolding initial_tuples_for_account render_account_entity render_role_prefix render_owner_role
    render_owner_role_assignee_group render_creator_user format_user replace_all
    delete_account_tuples referencing_account_tuple_key list_with_key strip_prefix strip_suffix
    apply delete tuple_eq terminate reconcile split join new_account_path AccountPath.org
    AccountPath.new_account_path_from_logical_cluster
accounts = tt

-- The last part of a path, and the path before it.
abbrev last_part : List String → String
last_part [] = ""
last_part (p ∷ []) = p
last_part (p ∷ q ∷ ps) = last_part (q ∷ ps)

abbrev before_last : List String → List String
before_last [] = []
before_last (p ∷ []) = []
before_last (p ∷ q ∷ ps) = p ∷ before_last (q ∷ ps)

abbrev paths : PathLib String
paths = record {
  new_path = λ v. v;
  to_string = λ p. p;
  is_valid = λ v. true;
  base = λ p. last_part (split p b':');
  parent = λ p. (join (before_last (split p b':')) ":", true);
}

abbrev path_laws : PathLaws paths
path_laws = record { to_string-new_path = λ v. refl }

abbrev cfg : Config
cfg = record { object_type = "acc"; parent_relation = "parent"; creator_relation = "owner" }

-- Each workspace's cluster ID is its path.
abbrev client : String → Client Memory
client path = record {
  get_logical_cluster = λ name. pure (record {
    path = some path;
    cluster = some path;
    owner_cluster = "up";
    owner_name = "";
    initializers = [];
    status_initializers = [];
  });
  get_account = λ name. pure (record { account_type = account; creator = some "u:1" });
  get_account_info = λ name. raise (fail "no account info");
  get_store = λ name. raise (fail "no store");
  patch_policy_status = λ policy. pure tt;
}

abbrev kcp : KcpClientGetter Memory
kcp = record {
  new_client_for_logical_cluster = λ path. pure (client path);
  new_client_from_context = raise (fail "no cluster");
}

abbrev store_ids : String → Exec Memory String
store_ids name = pure name

abbrev cluster : LogicalCluster
cluster = record {
  path = some "root:orgs:acme:team";
  cluster = some "c9";
  owner_cluster = "";
  owner_name = "";
  initializers = [];
  status_initializers = [];
}

abbrev empty : Memory
empty = record { facts = []; counts = [] }

initialised :
    (reconcile memory paths kcp store_ids cfg cluster empty).1.facts
    ≡ (
      "acme",
      record {
        object = "role:acc/root:orgs:acme/team/owner";
        relation = "assignee";
        user = "user:u.1";
      },
    )
      ∷ (
        "acme",
        record {
          object = "acc:root:orgs:acme/team";
          relation = "owner";
          user = "role:acc/root:orgs:acme/team/owner#assignee";
        },
      )
      ∷ (
        "acme",
        record { object = "acc:root:orgs:acme/team"; relation = "parent"; user = "acc:up/acme" },
      )
      ∷ []
unfolding accounts
initialised = refl

terminated :
    (terminate memory paths kcp store_ids cfg 1 cluster
      (reconcile memory paths kcp store_ids cfg cluster empty).1).1.facts
    ≡ []
unfolding accounts
terminated = refl

abbrev input : InitialTuplesForAccountInput
input = record {
  base = record {
    creator = "u:1";
    account_origin_cluster_id = "c1";
    account_name = "team";
    creator_relation = "owner";
    object_type = "acc";
  };
  parent_origin_cluster_id = "c0";
  parent_name = "acme";
  parent_relation = "parent";
}

abbrev manager : TupleManager
manager = record { store_id = "acme"; authorization_model_id = "" }

abbrev written : Memory
written =
    (apply memory manager
      (creator_tuple input.base ∷ group_tuple input.base ∷ parent_tuple input ∷ []) empty).1

delete-apply_example :
    memory_laws.holds
      (delete_account_tuples memory paths kcp store_ids cfg 1 manager "c1" "team" written).1
      "acme"
      (creator_tuple input.base)
    ≡ false
unfolding accounts
delete-apply_example =
    delete-apply memory paths kcp store_ids cfg memory_laws 1 memory_reads input
      (creator_tuple input.base ∷ group_tuple input.base ∷ parent_tuple input ∷ []) manager empty
      (creator_tuple input.base) refl refl refl refl refl

delete_account_tuples_lem_example :
    memory_laws.holds
      (delete_account_tuples memory paths kcp store_ids cfg 1 manager "c1" "team" written).1
      "acme"
      (parent_tuple input)
    ≡ false
unfolding accounts
delete_account_tuples_lem_example =
    delete_account_tuples_lem memory paths kcp store_ids cfg memory_laws 1 memory_reads manager "c1"
      "team" written "acme" (parent_tuple input) refl
