-- ===== src/Subroutine/ApiExportPolicy/Laws.antt =====
-- Which tuples the stores hold after a policy was processed.
use security_operator.Prelude.{
  String, Bool, List, [], ◌∷◌, Exec, ok, err, crash, ◌≡◌, refl, ◌==◌, ◌&&◌, ◌||◌, not, false, any,
  arith, if◌then◌else◌, bind-eq-ok, context, lift, ◌>>=◌,
}
use security_operator.Api.{Tuple, tuple_eq, ApiExportPolicy}
use security_operator.Kube.{AccountInfo, KcpClientGetter, Lister}
use security_operator.Fga.Service.{OpenFga, WriteLaws, IsQuiet}
use security_operator.Fga.Manager.{apply, delete}
use security_operator.Fga.Manager.Laws.{holds-apply, holds-delete}
use security_operator.Subroutine.ApiExportPolicy.{
  orgs_workspace_path, parse_allow_expression, is_type_org, policy_tuple, get_cluster_id_from_path,
  account_info_at, apply_to, apply_to_orgs, apply_expression, delete_from, delete_from_all,
  delete_tuples_for_expression, patch_status, latest, at_targets,
}

module _ {W : Type 0} (fga : OpenFga W) (kcp : KcpClientGetter W) (lister : Lister W)
    (get_store_id : String → Exec W String) (laws : WriteLaws fga) where
  open laws use {holds}

  -- While a policy is processed nothing else changes: a lookup that succeeds twice gives the same,
  -- and lookups and the patch of the status leave the stores as they are.
  pub record Stable : Type 0 where
    pub at : String → AccountInfo
    pub at_ok :
        (path : String) (w : W) (ai : AccountInfo)
        → (account_info_at fga kcp lister get_store_id path w).0 ≡ ok ai
        → ai ≡ at path
    pub at_quiet : (path : String) → IsQuiet laws (account_info_at fga kcp lister get_store_id path)
    pub orgs : List AccountInfo
    pub orgs_ok :
        (w : W) (ais : List AccountInfo) → (lister.list_account_infos w).0 ≡ ok ais → ais ≡ orgs
    pub orgs_quiet : IsQuiet laws lister.list_account_infos
    pub store_of : String → String
    pub store_ok : (name id : String) (w : W) → (get_store_id name w).0 ≡ ok id → id ≡ store_of name
    pub store_quiet : (name : String) → IsQuiet laws (get_store_id name)
    pub provider_of : String → String
    pub provider_ok :
        (path id : String) (w : W)
        → (get_cluster_id_from_path fga kcp lister get_store_id path w).0 ≡ ok id
        → id ≡ provider_of path
    pub provider_quiet :
        (path : String) → IsQuiet laws (get_cluster_id_from_path fga kcp lister get_store_id path)
    pub patch_quiet :
        (policy : ApiExportPolicy) → IsQuiet laws (patch_status fga kcp lister get_store_id policy)

  module _ (env : Stable) where
    -- The tuple in the store of the account's organisation.
    abbrev is_target : (AccountInfo → Tuple) → String → Tuple → AccountInfo → Bool
    is_target tuple s t ai = s == env.store_of (ai.organization).name && tuple_eq t (tuple ai)

    apply_to_lem :
        (ai : AccountInfo) (tuple : AccountInfo → Tuple) (w : W) (s : String) (t : Tuple)
        → (apply_to fga kcp lister get_store_id ai tuple w).0 ≡ ok tt
        → holds (apply_to fga kcp lister get_store_id ai tuple w).1 s t
          ≡ (is_target tuple s t ai || holds w s t)
    unfolding apply_to
    apply_to_lem ai tuple w s t done =
        let call = get_store_id (ai.organization).name in
        let found =
          bind-eq-ok (context "getting store ID for org" call)
            (λ id. context "applying tuple for expression" (apply fga (latest id) (tuple ai ∷ [])))
            w done in
        let id = found.0 in
        ground (
          arith,
          env.store_ok (ai.organization).name id w,
          env.store_quiet (ai.organization).name w s t,
          found.1,
          holds-apply fga laws (latest id) (tuple ai ∷ []) (call w).1 s t,
        )

    apply_to_orgs_lem :
        (ais : List AccountInfo) (tuple : AccountInfo → Tuple) (w : W) (s : String) (t : Tuple)
        → (apply_to_orgs fga kcp lister get_store_id ais tuple w).0 ≡ ok tt
        → holds (apply_to_orgs fga kcp lister get_store_id ais tuple w).1 s t
          ≡ (any (λ ai. is_type_org ai && is_target tuple s t ai) ais || holds w s t)
    unfolding apply_to_orgs
    apply_to_orgs_lem [] tuple w s t done = refl
    apply_to_orgs_lem (ai ∷ ais) tuple w s t done =
        let w' = (apply_to fga kcp lister get_store_id ai tuple w).1 in
        ground (
          arith,
          apply_to_lem ai tuple w s t,
          apply_to_orgs_lem ais tuple w' s t,
          apply_to_orgs_lem ais tuple w s t,
        )

    delete_from_lem :
        (ai : AccountInfo) (tuple : AccountInfo → Tuple) (w : W) (s : String) (t : Tuple)
        → (delete_from fga kcp lister get_store_id ai tuple w).0 ≡ ok tt
        → holds (delete_from fga kcp lister get_store_id ai tuple w).1 s t
          ≡ (not (is_target tuple s t ai) && holds w s t)
    unfolding delete_from
    delete_from_lem ai tuple w s t done =
        let call = get_store_id (ai.organization).name in
        let found =
          bind-eq-ok (context "getting store ID for org" call)
            (λ id. context "removing tuples" (delete fga (latest id) (tuple ai ∷ []))) w done in
        let id = found.0 in
        ground (
          arith,
          env.store_ok (ai.organization).name id w,
          env.store_quiet (ai.organization).name w s t,
          found.1,
          holds-delete fga laws (latest id) (tuple ai ∷ []) (call w).1 s t,
        )

    delete_from_all_lem :
        (ais : List AccountInfo) (tuple : AccountInfo → Tuple) (w : W) (s : String) (t : Tuple)
        → (delete_from_all fga kcp lister get_store_id ais tuple w).0 ≡ ok tt
        → holds (delete_from_all fga kcp lister get_store_id ais tuple w).1 s t
          ≡ (not (any (is_target tuple s t) ais) && holds w s t)
    unfolding delete_from_all
    delete_from_all_lem [] tuple w s t done = refl
    delete_from_all_lem (ai ∷ ais) tuple w s t done =
        let w' = (delete_from fga kcp lister get_store_id ai tuple w).1 in
        ground (arith, delete_from_lem ai tuple w s t, delete_from_all_lem ais tuple w' s t)

    -- Whether an expression puts a tuple into a store.
    abbrev pub grants : String → String → String → Tuple → String → Bool
    grants provider name s t e = elim (parse_allow_expression e) [
      | ok (path, relation) ↦
          if path == orgs_workspace_path
          then any (λ ai. is_type_org ai && is_target (policy_tuple provider name relation) s t ai)
              env.orgs
          else is_target (policy_tuple provider name relation) s t (env.at path)
      | err e ↦ false
      | crash c ↦ false
    ]

    -- Whether removing an expression takes a tuple out of a store.
    abbrev pub revokes : String → String → String → Tuple → String → Bool
    revokes provider name s t e = elim (parse_allow_expression e) [
      | ok (path, relation) ↦
          if path == orgs_workspace_path
          then any (is_target (policy_tuple provider name relation) s t) env.orgs
          else is_target (policy_tuple provider name relation) s t (env.at path)
      | err e ↦ false
      | crash c ↦ false
    ]

    at_orgs :
        (apply_many : List AccountInfo → Exec W (Unit {0})) (w : W)
        → (done : ((context "listing AccountInfo resources" lister.list_account_infos
                >>= apply_many)
              w).0
            ≡ ok tt)
        → ((context "listing AccountInfo resources" lister.list_account_infos >>= apply_many) w)
          ≡ apply_many env.orgs (lister.list_account_infos w).1
    at_orgs apply_many w done =
        let (ais, called, step) =
          bind-eq-ok (context "listing AccountInfo resources" lister.list_account_infos) apply_many
            w done in
        ground (arith, env.orgs_ok w ais)

    at_account :
        (path : String) (apply_one : AccountInfo → Exec W (Unit {0})) (w : W)
        → (done : ((account_info_at fga kcp lister get_store_id path >>= apply_one) w).0 ≡ ok tt)
        → ((account_info_at fga kcp lister get_store_id path >>= apply_one) w)
          ≡ apply_one (env.at path) (account_info_at fga kcp lister get_store_id path w).1
    at_account path apply_one w done =
        let (ai, called, step) =
          bind-eq-ok (account_info_at fga kcp lister get_store_id path) apply_one w done in
        ground (arith, env.at_ok path w ai)

    apply_at :
        (path : String) (tuple : AccountInfo → Tuple) (w : W) (s : String) (t : Tuple)
        → (at_targets fga kcp lister get_store_id
            (apply_to fga kcp lister get_store_id)
            (apply_to_orgs fga kcp lister get_store_id)
            path
            tuple
            w).0
          ≡ ok tt
        → holds
            (at_targets fga kcp lister get_store_id
              (apply_to fga kcp lister get_store_id)
              (apply_to_orgs fga kcp lister get_store_id)
              path
              tuple
              w).1
            s
            t
          ≡ ((if path == orgs_workspace_path
                then any (λ ai. is_type_org ai && is_target tuple s t ai) env.orgs
                else is_target tuple s t (env.at path))
              || holds w s t)
    apply_at path tuple w s t done =
        let many : List AccountInfo → Exec W (Unit {0}) =
          λ ais. apply_to_orgs fga kcp lister get_store_id ais tuple in
        let one : AccountInfo → Exec W (Unit {0}) =
          λ ai. apply_to fga kcp lister get_store_id ai tuple in
        ground (
          arith,
          at_orgs many w,
          at_account path one w,
          env.orgs_quiet w s t,
          env.at_quiet path w s t,
          apply_to_orgs_lem env.orgs tuple (lister.list_account_infos w).1 s t,
          apply_to_lem (env.at path) tuple (account_info_at fga kcp lister get_store_id path w).1 s
              t,
        )

    delete_at :
        (path : String) (tuple : AccountInfo → Tuple) (w : W) (s : String) (t : Tuple)
        → (at_targets fga kcp lister get_store_id
            (delete_from fga kcp lister get_store_id)
            (delete_from_all fga kcp lister get_store_id)
            path
            tuple
            w).0
          ≡ ok tt
        → holds
            (at_targets fga kcp lister get_store_id
              (delete_from fga kcp lister get_store_id)
              (delete_from_all fga kcp lister get_store_id)
              path
              tuple
              w).1
            s
            t
          ≡ (not (
                if path == orgs_workspace_path
                then any (is_target tuple s t) env.orgs
                else is_target tuple s t (env.at path))
              && holds w s t)
    delete_at path tuple w s t done =
        let many : List AccountInfo → Exec W (Unit {0}) =
          λ ais. delete_from_all fga kcp lister get_store_id ais tuple in
        let one : AccountInfo → Exec W (Unit {0}) =
          λ ai. delete_from fga kcp lister get_store_id ai tuple in
        ground (
          arith,
          at_orgs many w,
          at_account path one w,
          env.orgs_quiet w s t,
          env.at_quiet path w s t,
          delete_from_all_lem env.orgs tuple (lister.list_account_infos w).1 s t,
          delete_from_lem (env.at path) tuple (account_info_at fga kcp lister get_store_id path w).1
              s t,
        )

    pub apply_expression_lem :
        (provider name e : String) (w : W) (s : String) (t : Tuple)
        → (apply_expression fga kcp lister get_store_id provider name e w).0 ≡ ok tt
        → holds (apply_expression fga kcp lister get_store_id provider name e w).1 s t
          ≡ (grants provider name s t e || holds w s t)
    unfolding apply_expression
    apply_expression_lem provider name e w s t done =
        let ((path, relation), parsed, step) =
          bind-eq-ok (context "parsing allow expression" (lift (parse_allow_expression e)))
            (λ p.
              at_targets fga kcp lister get_store_id (apply_to fga kcp lister get_store_id)
                (apply_to_orgs fga kcp lister get_store_id) p.0 (policy_tuple provider name p.1))
            w done in
        ground (arith, parsed, step, apply_at path (policy_tuple provider name relation) w s t)

    pub delete_tuples_for_expression_lem :
        (provider name e : String) (w : W) (s : String) (t : Tuple)
        → (delete_tuples_for_expression fga kcp lister get_store_id provider name e w).0 ≡ ok tt
        → holds (delete_tuples_for_expression fga kcp lister get_store_id provider name e w).1 s t
          ≡ (not (revokes provider name s t e) && holds w s t)
    unfolding delete_tuples_for_expression
    delete_tuples_for_expression_lem provider name e w s t done =
        let ((path, relation), parsed, step) =
          bind-eq-ok (context "parsing expression" (lift (parse_allow_expression e)))
            (λ p.
              at_targets fga kcp lister get_store_id (delete_from fga kcp lister get_store_id)
                (delete_from_all fga kcp lister get_store_id) p.0 (policy_tuple provider name p.1))
            w done in
        ground (arith, parsed, step, delete_at path (policy_tuple provider name relation) w s t)
