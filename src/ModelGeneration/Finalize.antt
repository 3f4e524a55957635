-- ===== src/ModelGeneration/Finalize.antt =====
-- The models that are left when a binding was finalized.
use mathlib.Core.Path.{subst}
use security_operator.Prelude.{
  ℕ, String, List, Exec, ok, ◌≡◌, ◌∙◌, ap, ◌&&◌, not, arith, ltb, any, filter, length, bind-eq-ok,
  context, if◌then◌else◌, ◌>>=◌, pure,
}
use security_operator.Kube.{AccountInfo}
use security_operator.ModelGeneration.{
  ApiBinding, Texts, Clusters, ExportClient, count_bindings, delete_models, finalize,
}
use security_operator.ModelGeneration.Calls.{Env}
use security_operator.ModelGeneration.Counting.{
  shares, is_model, count_bindings_lem, count_bindings_quiet, delete_models_lem,
}

module _ {W : Type 0} (texts : Texts) (clusters : Clusters W) (env : Env texts clusters) where
  abbrev deletion : ApiBinding → AccountInfo → Exec W (Unit {0})
  deletion binding info = do
    cl ← context "failed to get cluster" (clusters.export_cluster binding.api_export_cluster_name)
    resources ← context "getting APIExport" (cl.get_api_export binding.export_name)
    delete_models texts clusters cl info resources

  -- How many bindings of the organisation are to the APIExport of a binding, itself included.
  abbrev pub users : ApiBinding → ℕ
  users binding = length (
      filter (shares texts clusters env binding ((env.here).organization).generated_cluster_id)
        env.bindings)

  deletion_lem :
      (binding : ApiBinding) (info : AccountInfo) (w : W) (n : String)
      → (deletion binding info w).0 ≡ ok tt
      → env.has (deletion binding info w).1 n ≡ (
          not (any (is_model texts clusters env info n) (env.resources binding.export_name))
          && env.has w n)
  deletion_lem binding info w n h =
      let m₁ =
        context "failed to get cluster" (clusters.export_cluster binding.api_export_cluster_name) in
      let f₂ : ExportClient W → List String → Exec W (Unit {0}) =
        λ cl. delete_models texts clusters cl info in
      let f₁ : ExportClient W → Exec W (Unit {0}) =
        λ cl. context "getting APIExport" (cl.get_api_export binding.export_name) >>= f₂ cl in
      let (cl, found, s₁) = bind-eq-ok m₁ f₁ w h in
      let u = (clusters.export_cluster binding.api_export_cluster_name w).1 in
      let m₂ = context "getting APIExport" ((env.exports).get_api_export binding.export_name) in
      let same : cl ≡ env.exports =
        env.exports_ok binding.api_export_cluster_name w cl (ground (arith, found)) in
      let at_exports : deletion binding info w ≡ f₁ env.exports u =
        s₁ ∙ ap (λ c. f₁ c (m₁ w).1) same ∙ ap (f₁ env.exports) (ground (arith, found)) in
      let (rs, read, s₂) =
        bind-eq-ok m₂ (f₂ env.exports) u {b = tt} (subst (λ r. r.0 ≡ ok tt) at_exports h) in
      let v = (env.exports.get_api_export binding.export_name u).1 in
      ground (
        arith,
        at_exports,
        s₂,
        env.exports_quiet binding.api_export_cluster_name w n,
        env.resources_ok binding.export_name u rs,
        env.resources_quiet binding.export_name u n,
        delete_models_lem texts clusters env info rs v n,
      )

  pub finalize_models :
      (binding : ApiBinding) (w : W) (n : String)
      → (finalize texts clusters binding w).0 ≡ ok tt
      → env.has (finalize texts clusters binding w).1 n ≡ (
          if ltb 1 (users binding)
          then env.has w n
          else not
              (any (is_model texts clusters env env.here n) (env.resources binding.export_name))
            && env.has w n)
  unfolding finalize
  finalize_models binding w n h =
      let last : AccountInfo → ℕ → Exec W (Unit {0}) =
        λ info m. if ltb 1 m then pure tt else deletion binding info in
      let m₁ = context "unable to get cluster from context" clusters.cluster_from_context in
      let m₂ = context "listing APIBindings" clusters.list_bindings in
      let count : AccountInfo → List ApiBinding → Exec W ℕ = λ info bs.
        count_bindings texts clusters binding (info.organization).generated_cluster_id bs in
      let f₃ : List ApiBinding → AccountInfo → Exec W (Unit {0}) =
        λ bs info. count info bs >>= last info in
      let f₂ : Exec W AccountInfo → List ApiBinding → Exec W (Unit {0}) =
        λ get bs. context "getting AccountInfo" get >>= f₃ bs in
      let f₁ : Exec W AccountInfo → Exec W (Unit {0}) = λ get. m₂ >>= f₂ get in
      let (get, found, s₁) = bind-eq-ok m₁ f₁ w h in
      let w₁ = (m₁ w).1 in
      let (bs, listed, s₂) = bind-eq-ok m₂ (f₂ get) w₁ {b = tt} (ground (arith, s₁)) in
      let w₂ = (m₂ w₁).1 in
      let (info, read, s₃) =
        bind-eq-ok (context "getting AccountInfo" get) (f₃ bs) w₂ {b = tt}
          (ground (arith, s₁, s₂)) in
      let w₃ = (context "getting AccountInfo" get w₂).1 in
      let (k, counted, s₄) =
        bind-eq-ok (count info bs) (last info) w₃ {b = tt} (ground (arith, s₁, s₂, s₃)) in
      let w₄ = (count info bs w₃).1 in
      let (read_ok, read_quiet) = env.here_ok w w₂ get (ground (arith, found)) in
      ground (
        arith,
        s₁,
        s₂,
        s₃,
        s₄,
        env.here_quiet w n,
        env.bindings_quiet w₁ n,
        env.bindings_ok w₁ bs,
        read_ok info,
        read_quiet n,
        count_bindings_quiet texts clusters env binding (info.organization).generated_cluster_id bs
            w₃ n,
        count_bindings_lem texts clusters env binding (info.organization).generated_cluster_id bs w₃
            k,
        deletion_lem binding info w₄ n,
      )
