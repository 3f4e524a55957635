-- ===== src/Tests/AuthorizationModels.antt =====
-- internal/subroutine/authorization_model.go at concrete inputs.
use security_operator.Prelude.{
  String, List, [], ◌∷◌, ◌++◌, Option, none, some, Exec, Result, ok, err, fail, pure, ◌≡◌, refl,
  arith, ◌&&◌, ◌==◌, Option-cases, inl, inr, eq_iff, flat_map, if◌then◌else◌, true,
}
use security_operator.Prelude.Text.{contains}
use security_operator.Api.{Store}
use security_operator.Kube.{Lister}
use security_operator.ModelGeneration.{cap_group_to_relation_length}
use security_operator.Subroutine.AuthorizationModel.{
  ModuleFile, ApiResource, ApiResourceList, Template, Libraries, Models,
  process_api_resource_into_model, render_resources, discover_and_render, discovered_files,
  module_files, write_model, update_model, process, schema_version,
}
use security_operator.Subroutine.Store.{get_related_authorization_models}
use security_operator.Subroutine.AuthorizationModel.Rendering.{
  AreFiles, resources_of, discover_and_render_equiv,
}
use security_operator.Subroutine.AuthorizationModel.Current.{ModelLaws, Holds, process-Holds}

-- The world is the store and the text of the one model.
abbrev World : Type 0
World = Option (String × String)

abbrev kept : World → String → String → Option String
kept none store id = none
kept (some m) store id = if m.0 == store && id == "m1" then some m.1 else none

abbrev answer : Option String → World → Result String × World
answer none w = (err (fail "no model"), w)
answer (some m) w = (ok m, w)

abbrev models : Models World String
models = record {
  read_authorization_model = λ store id w. answer (kept w store id) w;
  write_authorization_model = λ store m version w. (ok "m1", some (store, m));
}

abbrev execute : Template
execute i = ok i.singular

abbrev first_name : List ModuleFile → String
first_name [] = ""
first_name (f ∷ fs) = f.name

abbrev libraries : Libraries String String
libraries = record {
  key_text = λ s. s;
  parse_url = λ s. ok s;
  join_path = λ a b. ok b;
  url_with_path = λ u p. p;
  parse_group = λ gv. ok gv;
  model_tpl = execute;
  privileged_template = execute;
  transform = λ files version. ok (first_name files);
  clear_id = λ m. m;
  marshal = λ m. ok m;
}

read_back :
    (store id : String) (w : World) (m : String)
    → (models.read_authorization_model store id w).0 ≡ ok m
    → (kept w store id ≡ some m)
      × (kept (models.read_authorization_model store id w).1 store id ≡ some m)
read_back store id w m h = elim (Option-cases (kept w store id)) [
  | inl absent ↦ ground (arith, absent, h)
  | inr (x, present) ↦ ground (arith, present, h)
]

written :
    (store id m : String) (w : World)
    → ◌≡◌ {A = Result String} (ok "m1") (ok id)
    → kept (some (store, m)) store id ≡ some m
written store id m w h = ground (arith, eq_iff store store, eq_iff id "m1", h)

model_laws : ModelLaws libraries models
model_laws = record {
  kept = kept;
  read_ok = read_back;
  written = λ store id m w h. (m, written store id m w h, λ raw e. e);
}

abbrev pods : ApiResource
pods = record { name = "pods"; singular_name = "pod"; group = ""; namespaced = true }

abbrev logs : ApiResource
logs = record { name = "pods/log"; singular_name = ""; group = ""; namespaced = true }

abbrev list_of : String → ApiResourceList
list_of gv = record { group_version = gv; api_resources = logs ∷ pods ∷ [] }

abbrev discovery : String → Exec World ApiResourceList
discovery gv = pure (list_of gv)

abbrev found : List ModuleFile
found = record { name = "internal_core_types_pods.fga"; contents = "pod" } ∷ []

discover_and_render_equiv_example :
    AreFiles execute
      (flat_map (λ gv. resources_of gv (list_of gv).api_resources) ("v1" ∷ "apps" ∷ []))
      (found ++ found)
unfolding discover_and_render render_resources process_api_resource_into_model contains
    cap_group_to_relation_length
discover_and_render_equiv_example =
    discover_and_render_equiv discovery (λ gv. ok gv) execute list_of (λ gv. gv)
      ("v1" ∷ "apps" ∷ []) none (found ++ found) (λ gv u l h. ground (arith, h))
      (λ gv g h. ground (arith, h)) refl

abbrev acme : Store
acme = record {
  name = "acme";
  spec = record { core_module = "core"; tuples = [] };
  status = record { store_id = "s1"; authorization_model_id = "m1"; managed_tuples = [] };
}

abbrev lister : Lister World
lister = record { list_authorization_models = pure []; list_account_infos = pure [] }

-- The model in the store is an older one, which is replaced.
process-Holds_example :
    (files : List ModuleFile) × (desired : String) × ((module_files libraries models
        (some "orgs")
        lister
        "host"
        (λ url. discovery)
        acme
        (some ("s1", "old"))).0
      ≡ ok files)
    × (libraries.transform files schema_version ≡ ok desired)
    × Holds libraries models model_laws acme desired
        (process libraries models
          (some "orgs")
          lister
          "host"
          (λ url. discovery)
          acme
          (some ("s1", "old"))).1
unfolding process update_model write_model module_files discovered_files
    get_related_authorization_models discover_and_render render_resources
    process_api_resource_into_model contains cap_group_to_relation_length
process-Holds_example =
    process-Holds libraries models model_laws (some "orgs") lister "host" (λ url. discovery) acme
      acme (some ("s1", "old")) refl
