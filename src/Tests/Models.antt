-- ===== src/Tests/Models.antt =====
-- Models and bindings.
use mathlib.Core.Path.{subst}
use Prim.Native.String.{◌++◌}
use security_operator.Prelude.{
  ◌+◌, ◌≤◌, ◌<◌, String, Bool, List, [], ◌∷◌, Option, none, some, Error, true, is_not_found,
  is_no_match, ◌||◌, Result, ok, err, crash, pure, Exec, ◌≡◌, ◌≢◌, ◌↔◌, refl, ◌==◌, ◌&&◌, not, any,
  filter, ltb, arith, eq_iff, ap, if◌then◌else◌,
}
use security_operator.Prelude.Text.{size, slice_from}
use security_operator.Kube.{AccountInfo, AccountLocation, org}
use security_operator.ModelGeneration.{
  relation_name, cap_group_to_relation_length, ResourceSchema, model_group, ApiBinding, Texts,
  Clusters, ExportClient, org_of_binding, count_bindings, delete_models, finalize,
}
use security_operator.ModelGeneration.Names.{cap_group_lem, cap_group_exceeds_iff, model_group_lem}
use security_operator.ModelGeneration.Calls.{Env}
use security_operator.ModelGeneration.Counting.{is_model}
use security_operator.ModelGeneration.Finalize.{finalize_models, users}

capped : cap_group_to_relation_length "long-group-name" "resource" 20 ≡ ok "name"
unfolding cap_group_to_relation_length slice_from
capped = refl

nonempty : ◌≢◌ {A = String} "long-group-name" ""
nonempty h = cc

cap_group_lem_example :
    (8 + size "resource" ≤ 20
      → (g : String) × (cap_group_to_relation_length "long-group-name" "resource" 20 ≡ ok g)
        × (size (relation_name g "resource") ≤ 20))
    × (20 < 8 + size "resource"
        → cap_group_to_relation_length "long-group-name" "resource" 20
          ≡ crash "slice bounds out of range")
cap_group_lem_example = cap_group_lem "long-group-name" "resource" 20 nonempty

capped_core : cap_group_to_relation_length "" "pods" 12 ≡ ok "core"
unfolding cap_group_to_relation_length
capped_core = refl

cap_group_exceeds_iff_example :
    (12 < size (relation_name "core" "pods")) ↔ ((◌≡◌ {A = String} "" "") × (12 < 12 + size "pods"))
cap_group_exceeds_iff_example = cap_group_exceeds_iff "" "pods" "core" 12 capped_core

abbrev schema : ResourceSchema
schema = record {
  group = "a-group-of-more-than-thirty-six-bytes.example.com";
  plural = "things";
  singular = "thing";
  scope = "Cluster";
}

model_group_lem_example :
    (size schema.plural ≤ 42
      → (g p : String) × (model_group schema ≡ ok g)
        × (schema.group ≡ p ++ g)
        × (50 < size (relation_name schema.group schema.plural)
            → size (relation_name g schema.plural) ≡ 50)
        × (size (relation_name schema.group schema.plural) ≤ 50 → g ≡ schema.group))
    × (42 < size schema.plural → model_group schema ≡ crash "slice bounds out of range")
model_group_lem_example = model_group_lem schema

abbrev texts : Texts
texts = record { to_lower = λ s. s; trim = λ s cut. s; execute = λ input. ok "" }

abbrev place : AccountLocation
place = record {
  name = "acme";
  account_type = org;
  origin_cluster_id = "oc";
  generated_cluster_id = "gc";
}

abbrev info : AccountInfo
info = record { account = place; organization = place; oidc = none }

abbrev binding : ApiBinding
binding = record {
  name = "b";
  cluster = "c1";
  export_name = "export";
  export_path = "root:provider";
  api_export_cluster_name = "provider";
}

-- The world is the names of the models that there are.
abbrev has : List String → String → Bool
has w n = any (λ x. n == x) w

abbrev remove : String → List String → List String
remove name w = filter (λ x. not (x == name)) w

abbrev client : ExportClient (List String)
client = record {
  get_api_export = λ name. pure ("r" ∷ []);
  get_resource_schema = λ name. pure schema;
  create_or_update_model = λ name spec w. (ok tt, name ∷ w);
  delete_model = λ name w. (ok tt, remove name w);
}

abbrev clusters : Clusters (List String)
clusters = record {
  cluster_from_context = pure (pure info);
  account_cluster = λ name. pure (pure info);
  export_cluster = λ name. pure client;
  list_bindings = pure (binding ∷ []);
}

has-remove :
    (name : String) (w : List String) (n : String)
    → has (remove name w) n ≡ (not (n == name) && has w n)
has-remove name [] n = ground arith
has-remove name (x ∷ xs) n =
    ground (arith, has-remove name xs n, eq_iff x name, eq_iff n name, eq_iff n x)

abbrev value {ℓ} : {A : Type ℓ} → Result A → A → A
value (ok a) d = a
value (err e) d = d
value (crash s) d = d

abbrev env : Env texts clusters
env = record {
  has = has;
  here = info;
  here_ok = λ w u get called.
      subst
        (λ (g : Exec (List String) AccountInfo).
          ((i : AccountInfo) → (g u).0 ≡ ok i → i ≡ info)
          × ((n : String) → has (g u).1 n ≡ has u n))
        (ap (λ r. value r (pure info)) called) (λ i e. ground (arith, e), λ n. refl);
  here_quiet = λ w n. refl;
  bindings = binding ∷ [];
  bindings_ok = λ w bs called. ground (arith, called);
  bindings_quiet = λ w n. refl;
  account_at = λ c. some info;
  getter_quiet = λ c w n. refl;
  account_ok = λ c w u get called.
      subst
        (λ (g : Exec (List String) AccountInfo).
          ((i : AccountInfo) → (g u).0 ≡ ok i → ◌≡◌ {A = Option AccountInfo} (some info) (some i))
          × ((e : Error)
              → (g u).0 ≡ err e
              → (is_not_found e || is_no_match e) ≡ true
              → ◌≡◌ {A = Option AccountInfo} (some info) none)
          × ((n : String) → has (g u).1 n ≡ has u n))
        (ap (λ r. value r (pure info)) called)
        (λ i e. ground (arith, e), λ x e. ground (arith, e), λ n. refl);
  exports = client;
  exports_ok = λ name w cl called. ground (arith, called);
  exports_quiet = λ name w n. refl;
  resources = λ name. "r" ∷ [];
  resources_ok = λ name w rs called. ground (arith, called);
  resources_quiet = λ name w n. refl;
  schema = λ name. schema;
  schema_ok = λ name w r called. ground (arith, called);
  schema_quiet = λ name w n. refl;
  deleted = λ name w n called. has-remove name w n;
  absent = λ name w e called. ground (arith, called);
}

finalized : (finalize texts clusters binding ("m" ∷ [])).0 ≡ ok tt
unfolding finalize count_bindings org_of_binding delete_models
finalized = refl

finalize_models_example : has (finalize texts clusters binding ("m" ∷ [])).1 "m" ≡ (
    if ltb 1 (users texts clusters env binding)
    then has ("m" ∷ []) "m"
    else not (any (is_model texts clusters env info "m") ("r" ∷ [])) && has ("m" ∷ []) "m")
unfolding env
finalize_models_example = finalize_models texts clusters env binding ("m" ∷ []) "m" finalized
