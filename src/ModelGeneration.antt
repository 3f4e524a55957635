-- ===== src/ModelGeneration.antt =====
-- internal/subroutine/authorization_model_generation.go and internal/util/util.go: one
-- authorization model per resource of a bound APIExport and organisation.
pub mod Names
pub mod Calls
pub mod Counting
pub mod Finalize
use security_operator.Prelude.{
  ℕ, zero, suc, ◌+◌, ◌-◌, String, Bool, List, [], ◌∷◌, Option, none, some, Exec, Result, ok, err,
  crash, Error, fail, wrap, pure, raise, lift, context, catch, ◌>>=◌, ◌>>◌, ◌==◌, ◌&&◌, ◌||◌, not,
  any, ltb, nat_eq, if◌then◌else◌, is_not_found, is_no_match,
}
use security_operator.Prelude.Text.{
  concat, join, replace_all, contains, has_suffix, size, slice_from,
}
use security_operator.Api.{AuthorizationModelSpec, WorkspaceStoreRef}
use security_operator.Kube.{AccountInfo}

abbrev pub api_binding_finalizer : String
api_binding_finalizer = "core.platform-mesh.io/apibinding-finalizer"

-- `s[n:]`
abbrev pub sliced : Option String → Result String
sliced none = crash "slice bounds out of range"
sliced (some s) = ok s

abbrev pub relation_name : String → String → String
relation_name group resource = concat ("create_" ∷ group ∷ "_" ∷ resource ∷ [])

-- A string is ASCII here, so that its length in bytes is its length.
unfoldable pub cap_group_to_relation_length : String → String → ℕ → Result String
cap_group_to_relation_length group resource max_length =
    let size_of_relation = size (relation_name group resource) in
    let named = if group == "" then "core" else group in
    if ltb max_length size_of_relation
    then sliced (slice_from (size_of_relation - max_length) named)
    else ok named

pub record ResourceSchema : Type 0 where
  pub group : String
  pub plural : String
  pub singular : String
  pub scope : String

pub record ApiBinding : Type 0 where
  pub name : String
  pub cluster : String
  pub export_name : String
  pub export_path : String
  pub api_export_cluster_name : String

pub record ModelInput : Type 0 where
  pub name : String
  pub group : String
  pub singular : String
  pub scope : String

-- The libraries that the names and the texts are made with: `strings.ToLower`, `strings.Trim`
-- and the template.
pub record Texts : Type 0 where
  pub to_lower : String → String
  pub trim : String → String → String
  pub execute : ModelInput → Result String

-- The client of the cluster of the APIExport, whose APIExport is the names of its schemas.
pub record ExportClient (W : Type 0) : Type 0 where
  pub get_api_export : String → Exec W (List String)
  pub get_resource_schema : String → Exec W ResourceSchema
  pub create_or_update_model : String → AuthorizationModelSpec → Exec W (Unit {0})
  pub delete_model : String → Exec W (Unit {0})

-- What the subroutine reaches through the manager and the lister. An AccountInfo is read from the
-- context's cluster, or from the cluster of a name.
pub record Clusters (W : Type 0) : Type 0 where
  pub cluster_from_context : Exec W (Exec W AccountInfo)
  pub account_cluster : String → Exec W (Exec W AccountInfo)
  pub export_cluster : String → Exec W (ExportClient W)
  pub list_bindings : Exec W (List ApiBinding)

unfoldable pub to_k8s_name : Texts → List String → String
to_k8s_name texts parts = texts.trim (replace_all (texts.to_lower (join parts "-")) 46 "-") "-"

-- Group of a model: what `Process` cuts off the front keeps the longest relation at 50 bytes.
unfoldable pub model_group : ResourceSchema → Result String
model_group schema =
    let size_of_relation = size (relation_name schema.group schema.plural) in
    if ltb 50 size_of_relation
    then sliced (slice_from (size_of_relation - 50) schema.group)
    else ok schema.group

unfoldable pub model_name : Texts → ResourceSchema → AccountInfo → String
model_name texts schema info =
    to_k8s_name texts (schema.group ∷ schema.plural ∷ (info.organization).name ∷ [])

unfoldable pub is_internal : String → Bool
is_internal export_name =
    any (λ x. x == export_name) ("core.platform-mesh.io" ∷ "system.platform-mesh.io" ∷ [])
    || has_suffix export_name "kcp.io"

unfoldable pub finalizers : ApiBinding → List String
finalizers binding =
    if contains binding.name "platform-mesh.io" || contains binding.name "kcp.io"
    then []
    else api_binding_finalizer ∷ []

module _ {W : Type 0} (texts : Texts) (clusters : Clusters W) where
  unfoldable pub write_models : ExportClient W → AccountInfo → List String → Exec W (Unit {0})
  write_models cl info [] = pure tt
  write_models cl info (r ∷ rs) = do
    schema ← context "getting APIResourceSchema" (cl.get_resource_schema r)
    group ← lift (model_group schema)
    text ← context "executing model template" (
        lift (
          texts.execute (record {
            name = schema.plural;
            group = replace_all group 46 "_";
            singular = schema.singular;
            scope = schema.scope;
          })))
    context "creating or updating AuthorizationModel" (
        cl.create_or_update_model (model_name texts schema info) (record {
          store_ref = record {
            name = (info.organization).name;
            cluster = (info.organization).origin_cluster_id;
          };
          model = text;
          tuples = [];
        }))
    write_models cl info rs

  unfoldable pub process : ApiBinding → Exec W (Unit {0})
  process binding = if is_internal binding.export_name then pure tt else (do
    get_info ← context "getting cluster from context" clusters.cluster_from_context
    info ← context "getting AccountInfo" get_info
    cl ←
        context "getting APIExport cluster"
          (clusters.export_cluster binding.api_export_cluster_name)
    resources ← context "getting APIExport" (cl.get_api_export binding.export_name)
    write_models cl info resources)

  -- What is read of the AccountInfo, and none where there is no AccountInfo.
  abbrev pub asked : Exec W AccountInfo → Exec W (Option String)
  asked get_info =
      catch (do info ← get_info; pure (some (info.organization).generated_cluster_id))
        (λ e.
          if is_not_found e || is_no_match e
          then pure none
          else raise (wrap "getting AccountInfo for binding" e))

  -- The organisation of a binding, and none where its cluster has no AccountInfo.
  unfoldable pub org_of_binding : ApiBinding → Exec W (Option String)
  org_of_binding b = do
    get_info ← context "getting cluster for binding" (clusters.account_cluster b.cluster)
    asked get_info

  -- How many of the bindings are to the same APIExport in the same organisation.
  unfoldable pub count_bindings : ApiBinding → String → List ApiBinding → Exec W ℕ
  count_bindings binding org_id [] = pure 0
  count_bindings binding org_id (b ∷ bs) =
      let rest = count_bindings binding org_id bs in
      if b.export_name == binding.export_name && b.export_path == binding.export_path
      then (do
        found ← org_of_binding b
        n ← rest
        pure (elim found [ none ↦ n | some o ↦ if o == org_id then suc n else n ]))
      else rest

  abbrev pub delete_model : ExportClient W → String → Exec W (Unit {0})
  delete_model cl name =
      catch (cl.delete_model name)
        (λ e. if is_not_found e then pure tt else raise (wrap "deleting AuthorizationModel" e))

  unfoldable pub delete_models : ExportClient W → AccountInfo → List String → Exec W (Unit {0})
  delete_models cl info [] = pure tt
  delete_models cl info (r ∷ rs) = do
    schema ← context "getting APIResourceSchema" (cl.get_resource_schema r)
    delete_model cl (model_name texts schema info)
    delete_models cl info rs

  unfoldable pub finalize : ApiBinding → Exec W (Unit {0})
  finalize binding = do
    get_info ← context "unable to get cluster from context" clusters.cluster_from_context
    bindings ← context "listing APIBindings" clusters.list_bindings
    info ← context "getting AccountInfo" get_info
    n ← count_bindings binding (info.organization).generated_cluster_id bindings
    if ltb 1 n then pure tt else (do
      cl ← context "failed to get cluster" (clusters.export_cluster binding.api_export_cluster_name)
      resources ← context "getting APIExport" (cl.get_api_export binding.export_name)
      delete_models cl info resources)
