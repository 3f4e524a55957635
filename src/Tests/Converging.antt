-- ===== src/Tests/Converging.antt =====
-- The initializer of a workspace and the subroutines of its Store at a concrete input.
use security_operator.Prelude.{
  String, Bool, List, [], ◌∷◌, Option, none, some, Exec, Result, ok, fail, pure, raise, ◌≡◌, refl,
  arith, ap, ◌==◌, ◌&&◌, eq_iff, true, false, if◌then◌else◌,
}
use security_operator.Prelude.Text.{or_else, split}
use security_operator.Api.{Tuple, tuple_eq, tuple_eq_iff, Store, StoreSpec}
use security_operator.Kube.{
  LogicalCluster, Account, AccountType, org, AccountInfo, AccountLocation, Outcome, done, requeue,
  Manager, Lister,
}
use security_operator.Fga.Service.{OpenFga}
use security_operator.Fga.Manager.{apply, delete}
use security_operator.Fga.Tuples.{creator_tuple, group_tuple, base_tuples, tuples_for_organization}
use security_operator.Idp.{get_workspace_name}
use security_operator.Subroutine.Store.{process as process_store, get_related_authorization_models}
use security_operator.Subroutine.Tuples.{
  process as process_tuples, Object, store, tuple_manager, tuples_to_delete,
}
use security_operator.Subroutine.AuthorizationModel.{
  Libraries, Models, ApiResourceList, module_files, discovered_files, discover_and_render,
  render_resources, write_model, process as process_model,
}
use security_operator.Workspace.Initializer.{
  Operation, unchanged, created, updated, WorkspaceClient, OrgsClient, WorkspaceInitializer,
  member_tuples, tuples_input, with_spec, check_store, ensure_store, reconcile,
}
use security_operator.Workspace.Initializer.StoreRun.{reconcile_store}
use security_operator.Workspace.Initializer.Converge.{OrgsLaws, Answers, reconcile-Converges}

-- The world is the one Store.
abbrev World : Type 0
World = Option Store

abbrev same_tuples : List Tuple → List Tuple → Bool
same_tuples [] [] = true
same_tuples [] (u ∷ us) = false
same_tuples (t ∷ ts) [] = false
same_tuples (t ∷ ts) (u ∷ us) = tuple_eq t u && same_tuples ts us

same_tuples_refl : (ts : List Tuple) → same_tuples ts ts ≡ true
same_tuples_refl [] = refl
same_tuples_refl (t ∷ ts) = ground (arith, tuple_eq_iff t t, same_tuples_refl ts)

abbrev same_spec : StoreSpec → StoreSpec → Bool
same_spec a b = a.core_module == b.core_module && same_tuples a.tuples b.tuples

same_spec_refl : (a : StoreSpec) → same_spec a a ≡ true
same_spec_refl a = ground (arith, eq_iff a.core_module a.core_module, same_tuples_refl a.tuples)

abbrev blank : String → Store
blank name = record {
  name = name;
  spec = record { core_module = ""; tuples = [] };
  status = record { store_id = ""; authorization_model_id = ""; managed_tuples = [] };
}

abbrev operation : World → (Store → Store) → Operation
operation none f = created
operation (some s) f = if same_spec (f s).spec s.spec then unchanged else updated

abbrev create_or_update : String → (Store → Store) → Exec World (Operation × Store)
create_or_update name f w =
    (ok (operation w f, f (or_else w (blank name))), some (f (or_else w (blank name))))

abbrev acc : Account
acc = record { account_type = org; creator = some "ada" }

abbrev orgs : OrgsClient World
orgs = record { get_account = λ name. pure acc; create_or_update_store = create_or_update }

left_alone :
    (f : Store → Store) (s : Store) (w : World) → w ≡ some s → f s ≡ s → operation w f ≡ unchanged
left_alone f s w stored fixed = ground (arith, stored, fixed, same_spec_refl s.spec)

made_as_asked :
    (name : String) (f : Store → Store) (op : Operation) (s : Store) (w : World)
    → (create_or_update name f w).0 ≡ ok (op, s)
    → (s ≡ f (or_else w (blank name))) × ((create_or_update name f w).1 ≡ some s)
made_as_asked name f op s w h = (ground (arith, h), ground (arith, h))

kept_as_is :
    (name : String) (f : Store → Store) (s : Store) (w : World)
    → w ≡ some s
    → f s ≡ s
    → (create_or_update name f w).0 ≡ ok (unchanged, s)
kept_as_is name f s w stored fixed = ground (arith, left_alone f s w stored fixed, stored, fixed)

abbrev orgs_laws : OrgsLaws orgs
orgs_laws = record {
  stored = λ w name. w;
  blank = blank;
  settled = made_as_asked;
  kept = kept_as_is;
}

abbrev location : String → AccountType → AccountLocation
location name kind = record {
  name = name;
  account_type = kind;
  origin_cluster_id = "c0";
  generated_cluster_id = "c1";
}

abbrev info : AccountInfo
info = record { account = location "acme" org; organization = location "acme" org; oidc = none }

abbrev workspace : WorkspaceClient World
workspace = record { get_account_info = λ name. pure info }

abbrev initializer : WorkspaceInitializer
initializer = record {
  core_module = "core";
  object_type = "core_platform-mesh_io_account";
  creator_relation = "owner";
  allow_member_tuples_enabled = true;
}

abbrev lc : LogicalCluster
lc = record {
  path = some "root:orgs:acme";
  cluster = some "c1";
  owner_cluster = "c0";
  owner_name = "acme";
  initializers = [];
  status_initializers = [];
}

abbrev answers : Answers initializer (pure workspace) (λ name. pure orgs)
answers = record {
  workspace = workspace;
  info = info;
  orgs = orgs;
  acc = acc;
  workspace_is = λ w. refl;
  info_is = λ w. refl;
  orgs_is = λ w. refl;
  account_is = λ w. refl;
}

abbrev fga : OpenFga World
fga = record {
  write = λ req. pure tt;
  read = λ req. raise (fail "no tuples");
  list_stores = λ req.
      pure (record { stores = record { id = "s1"; name = "acme" } ∷ []; continuation_token = "" });
  create_store = λ name. raise (fail "no more");
  get_store = λ id. raise (fail "no answer");
  update_store = λ id name. raise (fail "no answer");
  delete_store = λ id. pure tt;
  count = λ operation result w. w;
}

abbrev libraries : Libraries String String
libraries = record {
  key_text = λ s. s;
  parse_url = λ s. ok s;
  join_path = λ a b. ok b;
  url_with_path = λ u p. p;
  parse_group = λ gv. ok gv;
  model_tpl = λ i. ok i.singular;
  privileged_template = λ i. ok i.singular;
  transform = λ files version. ok "model";
  clear_id = λ m. m;
  marshal = λ m. ok m;
}

abbrev models : Models World String
models = record {
  read_authorization_model = λ s id. raise (fail "no model");
  write_authorization_model = λ s m version. pure "m1";
}

abbrev lister : Lister World
lister = record { list_authorization_models = pure []; list_account_infos = pure [] }

abbrev manager : Manager World
manager = record {
  get_cluster = λ name. raise (fail "no cluster");
  cluster_from_context = raise (fail "no cluster");
}

abbrev discovery : String → String → Exec World ApiResourceList
discovery url gv = pure (record { group_version = gv; api_resources = [] })

abbrev wanted : List Tuple
wanted =
    creator_tuple (tuples_input initializer info "ada")
    ∷ group_tuple (tuples_input initializer info "ada")
    ∷ member_tuples initializer lc

abbrev new_store : Store
new_store = with_spec initializer wanted (blank "acme")

abbrev settled_store : Store
settled_store = record new_store {
  status = record { store_id = "s1"; authorization_model_id = "m1"; managed_tuples = wanted };
}

first_run :
    reconcile initializer (pure workspace) (λ name. pure orgs) lc none
    ≡ (ok (requeue 5 "store needed to be updated, requeueing"), some new_store)
unfolding reconcile ensure_store tuples_for_organization base_tuples check_store get_workspace_name
    split
first_run = refl

store_run :
    reconcile_store fga libraries models
      (some "root:orgs")
      lister
      "host"
      discovery
      manager
      new_store
      none
    ≡ (ok (store settled_store), none)
unfolding reconcile_store process_store process_model module_files get_related_authorization_models
    discovered_files discover_and_render render_resources write_model process_tuples tuple_manager
    apply delete tuples_to_delete
store_run = refl

reconcile-Converges_example :
    (reconcile initializer (pure workspace) (λ name. pure orgs) lc (some settled_store)).0 ≡ ok done
reconcile-Converges_example =
    reconcile-Converges initializer (pure workspace) (λ name. pure orgs) answers lc fga libraries
      models (some "root:orgs") lister "host" discovery manager orgs_laws none none
      (some settled_store) (requeue 5 "store needed to be updated, requeueing") new_store
      settled_store (ap (λ (r : Result Outcome × World). r.0) first_run)
      (ap (λ (r : Result Outcome × World). r.1) first_run)
      (ap (λ (r : Result Object × World). r.0) store_run) (λ e. ground (arith, eq_iff "s1" "", e))
      refl
