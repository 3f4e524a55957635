-- ===== src/ModelGeneration/Counting.antt =====
-- When the models of an APIExport are deleted.
use security_operator.Prelude.{
  ℕ, suc, String, Bool, List, [], ◌∷◌, Option, none, some, ok, ◌≡◌, refl, ◌==◌, ◌&&◌, not, arith,
  any, filter, length, bind-ok, bind-eq-ok, context, if◌then◌else◌, Bool-cases, inl, inr, false,
  ◌>>=◌, ◌>>◌, pure,
}
use security_operator.Prelude.Text.{join, replace_all}
use security_operator.Kube.{AccountInfo}
use security_operator.ModelGeneration.Calls.{Env, org_at, org_ok, org_quiet, delete_model_lem}
use security_operator.ModelGeneration.{
  ApiBinding, ResourceSchema, Texts, Clusters, org_of_binding, count_bindings, delete_model,
  delete_models, model_name, to_k8s_name,
}

module _ {W : Type 0} (texts : Texts) (clusters : Clusters W) where
  module _ (env : Env texts clusters) where
    -- The binding is to the same APIExport, and in the organisation.
    abbrev pub shares : ApiBinding → String → ApiBinding → Bool
    shares binding org_id b =
        (b.export_name == binding.export_name && b.export_path == binding.export_path)
        && elim (org_at texts clusters env b) [ none ↦ false | some o ↦ o == org_id ]

    pub count_bindings_lem :
        (binding : ApiBinding) (org_id : String) (bs : List ApiBinding) (w : W) (n : ℕ)
        → (count_bindings texts clusters binding org_id bs w).0 ≡ ok n
        → n ≡ length (filter (shares binding org_id) bs)
    unfolding count_bindings
    count_bindings_lem binding org_id [] w n h = ground arith
    count_bindings_lem binding org_id (b ∷ bs) w n h =
        elim (Bool-cases
          (b.export_name == binding.export_name && b.export_path == binding.export_path)) [
            | inr other ↦ ground (arith, other, count_bindings_lem binding org_id bs w n)
            | inl same ↦
                let count = count_bindings texts clusters binding org_id bs in
                let result : Option String → ℕ → ℕ =
                  λ found m. elim found [ none ↦ m | some o ↦ if o == org_id then suc m else m ] in
                let (found, asked, h₁) =
                  bind-ok (org_of_binding texts clusters b) (λ o. count >>= λ m. pure (result o m))
                    w {b = n} (ground (arith, same)) in
                let u = (org_of_binding texts clusters b w).1 in
                let (m, counted, h₂) = bind-ok count (λ m. pure (result found m)) u h₁ in
                ground (
                  arith,
                  same,
                  count_bindings_lem binding org_id bs u m counted,
                  org_ok texts clusters env b w found asked,
                )
          ]

    pub count_bindings_quiet :
        (binding : ApiBinding) (org_id : String) (bs : List ApiBinding) (w : W) (n : String)
        → env.has (count_bindings texts clusters binding org_id bs w).1 n ≡ env.has w n
    unfolding count_bindings
    count_bindings_quiet binding org_id [] w n = refl
    count_bindings_quiet binding org_id (b ∷ bs) w n =
        let u = (org_of_binding texts clusters b w).1 in
        ground (
          arith,
          count_bindings_quiet binding org_id bs w n,
          count_bindings_quiet binding org_id bs u n,
          org_quiet texts clusters env b w n,
        )

    -- The name of a model of one of the resources: group, plural name and organisation, joined by
    -- dashes, in lower case, with dashes in place of dots and none at either end.
    abbrev pub is_model : AccountInfo → String → String → Bool
    is_model info n r =
        let parts : List String =
          (env.schema r).group ∷ (env.schema r).plural ∷ (info.organization).name ∷ [] in
        n == texts.trim (replace_all (texts.to_lower (join parts "-")) 46 "-") "-"

    pub delete_models_lem :
        (info : AccountInfo) (rs : List String) (w : W) (n : String)
        → (delete_models texts clusters env.exports info rs w).0 ≡ ok tt
        → env.has (delete_models texts clusters env.exports info rs w).1 n
          ≡ (not (any (is_model info n) rs) && env.has w n)
    unfolding delete_models model_name to_k8s_name
    delete_models_lem info [] w n h = refl
    delete_models_lem info (r ∷ rs) w n h =
        let get = context "getting APIResourceSchema" (env.exports.get_resource_schema r) in
        let delete = delete_model texts clusters env.exports in
        let rest = delete_models texts clusters env.exports info rs in
        let name : ResourceSchema → String = λ s. model_name texts s info in
        let (s, got, step₁) = bind-eq-ok get (λ s. delete (name s) >> rest) w h in
        let u = (get w).1 in
        let (x, gone, step₂) =
          bind-eq-ok (delete (name s)) (λ x. rest) u {b = tt} (ground (arith, step₁)) in
        let v = (delete (name s) u).1 in
        ground (
          arith,
          step₁,
          step₂,
          delete_models_lem info rs v n,
          env.schema_ok r w s,
          env.schema_quiet r w n,
          delete_model_lem texts clusters env (name s) u n gone,
        )
