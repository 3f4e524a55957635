-- ===== src/Subroutine/AuthorizationModel.antt =====
-- internal/subroutine/authorization_model.go: the authorization model of a store, made of the core
-- module, of the related AuthorizationModels and of the resources that discovery finds.
pub mod Rendering
pub mod Current
use security_operator.Prelude.{
  String, Bool, List, [], ◌∷◌, ◌++◌, Option, Exec, Result, ok, pure, lift, raise, context, ◌>>=◌,
  ◌>>◌, ◌==◌, map, if◌then◌else◌,
}
use security_operator.Prelude.Text.{concat, contains, replace_all}
use security_operator.Api.{Store, AuthorizationModel}
use security_operator.Kube.{Lister}
use security_operator.ModelGeneration.{ModelInput, cap_group_to_relation_length}
use security_operator.Subroutine.Store.{get_related_authorization_models}

abbrev pub schema_version : String
schema_version = "1.2"

abbrev pub privileged_group_versions : List String
privileged_group_versions = "rbac.authorization.k8s.io/v1" ∷ []

abbrev pub group_versions : List String
group_versions =
    "authentication.k8s.io/v1" ∷ "authorization.k8s.io/v1" ∷ "v1" ∷ "apis.kcp.io/v1alpha1"
    ∷ "ui.platform-mesh.io/v1alpha1" ∷ []

pub record ModuleFile : Type 0 where
  pub name : String
  pub contents : String

-- metav1.APIResource and metav1.APIResourceList
pub record ApiResource : Type 0 where
  pub name : String
  pub singular_name : String
  pub group : String
  pub namespaced : Bool

pub record ApiResourceList : Type 0 where
  pub group_version : String
  pub api_resources : List ApiResource

-- A template, as what it makes of its input.
abbrev pub Template : Type 0
Template = ModelInput → Result String

unfoldable pub process_api_resource_into_model : Template → ApiResource → Result String
process_api_resource_into_model execute r =
    let group =
      if r.group == "" then ok "core" else cap_group_to_relation_length r.group r.name 50 in
    let input = λ (g : String). execute (record {
      name = r.name;
      group = replace_all g 46 "_";
      singular = r.singular_name;
      scope = if r.namespaced then "Namespaced" else "Cluster";
    }) in
    elim group [ ok g ↦ input g | Result.err e ↦ Result.err e | Result.crash s ↦ Result.crash s ]

abbrev pub file_name : ApiResource → String
file_name r = concat ("internal_core_types_" ∷ r.name ∷ ".fga" ∷ [])

abbrev pub with_group : String → ApiResource → ApiResource
with_group group r = record r {
  group = if group == "" then r.group else if r.group == "" then group else r.group;
}

-- `discovery` is `ServerResourcesForGroupVersion`, `parse_group` the group of a group and version.
module _ {W : Type 0} (discovery : String → Exec W ApiResourceList)
    (parse_group : String → Result String) where
  -- The resources of one list; subresources have a slash in their names.
  unfoldable pub render_resources : Template → String → List ApiResource → Exec W (List ModuleFile)
  render_resources execute group [] = pure []
  render_resources execute group (r ∷ rs) =
      let rest = render_resources execute group rs in
      if contains r.name "/" then rest else (do
        text ←
            context "process api resource"
              (lift (process_api_resource_into_model execute (with_group group r)))
        files ← rest
        pure (record { name = file_name r; contents = text } ∷ files))

  unfoldable pub discover_and_render : Template → List String → Exec W (List ModuleFile)
  discover_and_render execute [] = pure []
  discover_and_render execute (gv ∷ gvs) = do
    list ← context "discover resources" (discovery gv)
    group ← context "parse group version" (lift (parse_group list.group_version))
    files ← render_resources execute group list.api_resources
    rest ← discover_and_render execute gvs
    pure (files ++ rest)

-- The libraries: how the key of an object is printed, URLs, the two templates and the transformer,
-- whose models are of the type `M`; `clear_id` is what `Process` does to a model it reads, and
-- `marshal` is protojson's.
pub record Libraries (U M : Type 0) : Type 0 where
  pub key_text : String → String
  pub parse_url : String → Result U
  pub join_path : String → String → Result String
  pub url_with_path : U → String → String
  pub parse_group : String → Result String
  pub model_tpl : Template
  pub privileged_template : Template
  pub transform : List ModuleFile → String → Result M
  pub clear_id : M → M
  pub marshal : M → Result String

-- OpenFGA's calls for authorization models: a store's ID and a model's.
pub record Models (W M : Type 0) : Type 0 where
  pub read_authorization_model : String → String → Exec W M
  pub write_authorization_model : String → M → String → Exec W String

abbrev pub set_model_id : String → Store → Store
set_model_id id o = record o { status = record (o.status) { authorization_model_id = id } }

module _ {W U M : Type 0} (lib : Libraries U M) (fga : Models W M) where
  unfoldable pub write_model : Store → M → Exec W Store
  write_model o desired = do
    id ← fga.write_authorization_model o.status.store_id desired schema_version
    pure (set_model_id id o)

  -- A model that is there already is written again only if its text differs.
  unfoldable pub update_model : Store → M → Exec W Store
  update_model o desired = do
    current ← fga.read_authorization_model o.status.store_id o.status.authorization_model_id
    current_raw ← lift (lib.marshal (lib.clear_id current))
    desired_raw ← lift (lib.marshal desired)
    if current_raw == desired_raw then pure o else write_model o desired

module _ {W U M : Type 0} (lib : Libraries U M) (fga : Models W M) (cluster : Option String)
    (lister : Lister W) (host : String)
    (new_discovery_client : String → String → Exec W ApiResourceList) where
  -- The files from discovery in the workspace of the store's organisation.
  unfoldable pub discovered_files : Store → Exec W (List ModuleFile)
  discovered_files o = do
    parsed ← lift (lib.parse_url host)
    path ← lift (lib.join_path "clusters" (concat ("root:orgs:" ∷ o.name ∷ [])))
    core ←
        discover_and_render (new_discovery_client (lib.url_with_path parsed path)) lib.parse_group
          lib.model_tpl group_versions
    privileged ←
        discover_and_render (new_discovery_client (lib.url_with_path parsed path)) lib.parse_group
          lib.privileged_template privileged_group_versions
    pure (core ++ privileged)

  abbrev pub module_file : AuthorizationModel → ModuleFile
  module_file m = record {
    name = concat (lib.key_text m.name ∷ ".fga" ∷ []);
    contents = m.spec.model;
  }

  -- The core module, the related ones, and except for the store orgs the discovered ones.
  unfoldable pub module_files : Store → Exec W (List ModuleFile)
  module_files o = do
    related ← get_related_authorization_models cluster lister o
    let own : List ModuleFile =
        record { name = concat (lib.key_text o.name ∷ ".fga" ∷ []); contents = o.spec.core_module }
        ∷ map module_file related
    if o.name == "orgs" then pure own else (do found ← discovered_files o; pure (own ++ found))

  -- The store is returned with its new status.
  unfoldable pub process : Store → Exec W Store
  process o = do
    files ← module_files o
    desired ← lift (lib.transform files schema_version)
    if o.status.authorization_model_id == ""
        then write_model lib fga o desired
        else update_model lib fga o desired
