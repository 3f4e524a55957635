-- ===== src/Subroutine/ApiExportPolicy/Effects.antt =====
-- `Process` and `Finalize` of a policy, over all its expressions.
use security_operator.Prelude.{
  String, Bool, List, [], ◌∷◌, Exec, ok, ◌≡◌, refl, ◌&&◌, ◌||◌, not, any, ◌==◌, arith, bind-eq-ok,
  context, pure, ◌>>◌,
}
use security_operator.Api.{Tuple, ApiExportPolicy}
use security_operator.Kube.{KcpClientGetter, Lister}
use security_operator.Fga.Service.{OpenFga, WriteLaws}
use security_operator.Subroutine.ApiExportPolicy.{
  get_cluster_id_from_path, apply_expression, delete_tuples_for_expression, delete_all, apply_all,
  removed_expressions, delete_removed_expressions, patch_status, process, finalize,
}
use security_operator.Subroutine.ApiExportPolicy.Laws.{
  Stable, grants, revokes, apply_expression_lem, delete_tuples_for_expression_lem,
}

module _ {W : Type 0} (fga : OpenFga W) (kcp : KcpClientGetter W) (lister : Lister W)
    (get_store_id : String → Exec W String) (laws : WriteLaws fga)
    (env : Stable fga kcp lister get_store_id laws) where
  open laws use {holds}

  abbrev pub grants' : String → String → String → Tuple → String → Bool
  grants' = grants fga kcp lister get_store_id laws env

  abbrev pub revokes' : String → String → String → Tuple → String → Bool
  revokes' = revokes fga kcp lister get_store_id laws env

  apply_all_lem :
      (provider name : String) (es : List String) (w : W) (s : String) (t : Tuple)
      → (apply_all fga kcp lister get_store_id provider name es w).0 ≡ ok tt
      → holds (apply_all fga kcp lister get_store_id provider name es w).1 s t
        ≡ (any (grants' provider name s t) es || holds w s t)
  unfolding apply_all
  apply_all_lem provider name [] w s t done = refl
  apply_all_lem provider name (e ∷ es) w s t done =
      let w' = (apply_expression fga kcp lister get_store_id provider name e w).1 in
      ground (
        arith,
        apply_expression_lem fga kcp lister get_store_id laws env provider name e w s t,
        apply_all_lem provider name es w' s t,
      )

  delete_all_lem :
      (provider name : String) (es : List String) (w : W) (s : String) (t : Tuple)
      → (delete_all fga kcp lister get_store_id provider name es w).0 ≡ ok tt
      → holds (delete_all fga kcp lister get_store_id provider name es w).1 s t
        ≡ (not (any (revokes' provider name s t) es) && holds w s t)
  unfolding delete_all
  delete_all_lem provider name [] w s t done = refl
  delete_all_lem provider name (e ∷ es) w s t done =
      let w' = (delete_tuples_for_expression fga kcp lister get_store_id provider name e w).1 in
      ground (
        arith,
        delete_tuples_for_expression_lem fga kcp lister get_store_id laws env provider name e w s t,
        delete_all_lem provider name es w' s t,
      )

  delete_removed_expressions_lem :
      (policy : ApiExportPolicy) (w : W) (s : String) (t : Tuple)
      → (delete_removed_expressions fga kcp lister get_store_id policy w).0 ≡ ok tt
      → holds (delete_removed_expressions fga kcp lister get_store_id policy w).1 s t ≡ (
          not (
            any
              (revokes'
                (env.provider_of (policy.api_export_ref).cluster_path)
                (policy.api_export_ref).name
                s
                t)
              (removed_expressions policy.allow_path_expressions policy.managed_allow_expressions))
          && holds w s t)
  unfolding delete_removed_expressions
  delete_removed_expressions_lem policy w s t done =
      let path = (policy.api_export_ref).cluster_path in
      let name = (policy.api_export_ref).name in
      let removed =
        removed_expressions policy.allow_path_expressions policy.managed_allow_expressions in
      let call = get_cluster_id_from_path fga kcp lister get_store_id path in
      let (provider, called, step) =
        bind-eq-ok (context "getting provider cluster ID" call)
          (λ id. delete_all fga kcp lister get_store_id id name removed) w done in
      ground (
        arith,
        step,
        env.provider_ok path provider w,
        env.provider_quiet path w s t,
        delete_all_lem provider name removed (call w).1 s t,
      )

  any-removed_expressions :
      (p : String → Bool) (spec managed : List String)
      → any p (removed_expressions spec managed)
        ≡ any (λ e. not (any (λ x. x == e) spec) && p e) managed
  unfolding removed_expressions
  any-removed_expressions p spec [] = refl
  any-removed_expressions p spec (e ∷ es) = ground (arith, any-removed_expressions p spec es)

  -- Provided that lookups give the same answer whenever they succeed and change no store: when
  -- Process succeeds, the status lists the expressions of the spec; and every store holds the
  -- tuples that an expression of the spec grants, and of the others exactly those that it held
  -- before and that no expression revokes which the status had and the spec does not have.
  pub process_effect :
      (policy done : ApiExportPolicy) (w : W) (s : String) (t : Tuple)
      → (process fga kcp lister get_store_id policy w).0 ≡ ok done
      → let provider = env.provider_of (policy.api_export_ref).cluster_path in
        let name = (policy.api_export_ref).name in
        (done.managed_allow_expressions ≡ policy.allow_path_expressions)
        × (holds (process fga kcp lister get_store_id policy w).1 s t ≡ (
            any (grants' provider name s t) policy.allow_path_expressions
            || (not (
                  any
                    (λ e.
                      not (any (λ x. x == e) policy.allow_path_expressions)
                      && revokes' provider name s t e)
                    policy.managed_allow_expressions)
                && holds w s t)))
  unfolding process
  process_effect policy done w s t h =
      let path = (policy.api_export_ref).cluster_path in
      let name = (policy.api_export_ref).name in
      let spec = policy.allow_path_expressions in
      let result : ApiExportPolicy = record policy { managed_allow_expressions = spec } in
      let call = get_cluster_id_from_path fga kcp lister get_store_id path in
      let removal = delete_removed_expressions fga kcp lister get_store_id policy in
      let finish : Exec W ApiExportPolicy =
        patch_status fga kcp lister get_store_id result >> pure result in
      let grant : String → Exec W ApiExportPolicy =
        λ id. apply_all fga kcp lister get_store_id id name spec >> finish in
      let (provider, called, step) =
        bind-eq-ok (context "getting provider cluster ID" call)
          (λ id. context "removing tuples for policy" removal >> grant id) w h in
      let w₁ = (call w).1 in
      let w₂ = (removal w₁).1 in
      let w₃ = (apply_all fga kcp lister get_store_id provider name spec w₂).1 in
      ground (
        arith,
        step,
        env.provider_ok path provider w,
        env.provider_quiet path w s t,
        delete_removed_expressions_lem policy w₁ s t,
        any-removed_expressions (revokes' (env.provider_of path) name s t) spec
            policy.managed_allow_expressions,
        apply_all_lem provider name spec w₂ s t,
        env.patch_quiet result w₃ s t,
      )

  -- Under the same conditions as for Process: when Finalize succeeds, every store holds what it
  -- held before, without what an expression of the spec revokes. The expressions of the status
  -- play no part.
  pub finalize_effect :
      (policy : ApiExportPolicy) (w : W) (s : String) (t : Tuple)
      → (finalize fga kcp lister get_store_id policy w).0 ≡ ok tt
      → holds (finalize fga kcp lister get_store_id policy w).1 s t ≡ (
          not (
            any
              (revokes'
                (env.provider_of (policy.api_export_ref).cluster_path)
                (policy.api_export_ref).name
                s
                t)
              policy.allow_path_expressions)
          && holds w s t)
  unfolding finalize
  finalize_effect policy w s t done =
      let path = (policy.api_export_ref).cluster_path in
      let name = (policy.api_export_ref).name in
      let call = get_cluster_id_from_path fga kcp lister get_store_id path in
      let (provider, called, step) =
        bind-eq-ok (context "getting provider cluster ID" call)
          (λ id. delete_all fga kcp lister get_store_id id name policy.allow_path_expressions) w
          done in
      ground (
        arith,
        step,
        env.provider_ok path provider w,
        env.provider_quiet path w s t,
        delete_all_lem provider name policy.allow_path_expressions (call w).1 s t,
      )
