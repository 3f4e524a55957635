-- ===== src/Workspace/Initializer/Converge.antt =====
-- The initializer and the subroutines of the Store that it makes, one after the other.
use security_operator.Prelude.{
  String, List, ◌++◌, Option, some, Exec, Result, ok, ◌≡◌, ◌≢◌, ◌∙◌, ap, arith, ◌==◌, eq_iff, pure,
  context, ◌⊎◌, Result-cases, carry, ◌>>=◌, Bool-cases, Option-cases, inl, inr,
}
use security_operator.Prelude.Text.{or_else}
use security_operator.Api.{Tuple, contains_tuple, Store, StoreSpec}
use security_operator.Kube.{LogicalCluster, Account, AccountInfo, Outcome, done, Manager, Lister}
use security_operator.Fga.Service.{OpenFga}
use security_operator.Fga.Tuples.{tuples_for_organization}
use security_operator.Idp.{get_workspace_name}
use security_operator.Subroutine.Tuples.{store}
use security_operator.Subroutine.AuthorizationModel.{Libraries, Models, ApiResourceList}
use security_operator.Workspace.Initializer.{
  Operation, unchanged, WorkspaceClient, OrgsClient, WorkspaceInitializer, member_tuples,
  tuples_input, with_spec, check_store, ensure_store, reconcile,
}
use security_operator.Workspace.Initializer.StoreRun.{
  contained, reconcile_store, reconcile_store_lem,
}

-- What is documented of CreateOrUpdate on Stores: it changes the stored object by the given
-- function, or a new one if there is none, and an object that the function leaves as it is is
-- reported as unchanged.
pub record OrgsLaws {W : Type 0} (orgs : OrgsClient W) : Type 0 where
  pub stored : W → String → Option Store
  pub blank : String → Store
  pub settled :
      (name : String) (f : Store → Store) (op : Operation) (s : Store) (w : W)
      → (orgs.create_or_update_store name f w).0 ≡ ok (op, s)
      → (s ≡ f (or_else (stored w name) (blank name)))
        × (stored (orgs.create_or_update_store name f w).1 name ≡ some s)
  pub kept :
      (name : String) (f : Store → Store) (s : Store) (w : W)
      → stored w name ≡ some s
      → f s ≡ s
      → (orgs.create_or_update_store name f w).0 ≡ ok (unchanged, s)

module _ {W : Type 0} (i : WorkspaceInitializer) (cluster_from_context : Exec W (WorkspaceClient W))
    (new_client_for_logical_cluster : String → Exec W (OrgsClient W)) where
  -- The account and the clients do not change between the runs.
  pub record Answers : Type 0 where
    pub workspace : WorkspaceClient W
    pub info : AccountInfo
    pub orgs : OrgsClient W
    pub acc : Account
    pub workspace_is : (w : W) → cluster_from_context w ≡ (ok workspace, w)
    pub info_is : (w : W) → workspace.get_account_info "account" w ≡ (ok info, w)
    pub orgs_is : (w : W) → new_client_for_logical_cluster "root:orgs" w ≡ (ok orgs, w)
    pub account_is : (w : W) → orgs.get_account (info.account).name w ≡ (ok acc, w)

  module _ (answers : Answers) (lc : LogicalCluster) where
    open answers use {info, orgs, acc}

    abbrev run : Exec W Outcome
    run = reconcile i cluster_from_context new_client_for_logical_cluster lc

    abbrev put_store : List Tuple → Exec W Outcome
    put_store tuples =
        context "unable to create/update store"
          (orgs.create_or_update_store (get_workspace_name lc) (with_spec i tuples))
        >>= λ result. pure (check_store tuples result.0 result.1)

    abbrev create : List Tuple → Exec W (Operation × Store)
    create tuples = orgs.create_or_update_store (get_workspace_name lc) (with_spec i tuples)

    -- Every run that succeeds asks for the same tuples.
    run_cases :
        ((tuples : List Tuple) × ((w : W) → run w ≡ put_store tuples w))
        ⊎ ((w : W) (out : Outcome) → (run w).0 ≢ ok out)
    unfolding reconcile ensure_store
    run_cases = elim (Option-cases acc.creator) [
      | inl absent ↦ inr (λ w out e. ground (
        arith,
        answers.workspace_is w,
        answers.info_is w,
        answers.orgs_is w,
        answers.account_is w,
        absent,
        e,
      ))
      | inr (c, present) ↦ elim (Bool-cases (c == "")) [
        | inl empty ↦ inr (λ w out e. ground (
          arith,
          answers.workspace_is w,
          answers.info_is w,
          answers.orgs_is w,
          answers.account_is w,
          present,
          empty,
          e,
        ))
        | inr named ↦ elim (Result-cases (tuples_for_organization (tuples_input i info c))) [
          | inl (base, built) ↦ inl (
            base ++ member_tuples i lc,
            λ w. ground (
              arith,
              answers.workspace_is w,
              answers.info_is w,
              answers.orgs_is w,
              answers.account_is w,
              present,
              named,
              built,
            ),
          )
          | inr (inl (x, failed)) ↦ inr (λ w out e. ground (
            arith,
            answers.workspace_is w,
            answers.info_is w,
            answers.orgs_is w,
            answers.account_is w,
            present,
            named,
            failed,
            e,
          ))
          | inr (inr (x, failed)) ↦ inr (λ w out e. ground (
            arith,
            answers.workspace_is w,
            answers.info_is w,
            answers.orgs_is w,
            answers.account_is w,
            present,
            named,
            failed,
            e,
          ))
        ]
      ]
    ]

    module _ {U M : Type 0} (fga : OpenFga W) (lib : Libraries U M) (models : Models W M)
        (cluster : Option String) (lister : Lister W) (host : String)
        (new_discovery_client : String → String → Exec W ApiResourceList) (mgr : Manager W) where
      -- The Store that a successful run leaves has the spec that the run asks for.
      stored_spec :
          (laws : OrgsLaws orgs) (tuples : List Tuple) (w : W) (out : Outcome) (o : Store)
          → (put_store tuples w).0 ≡ ok out
          → laws.stored (put_store tuples w).1 (get_workspace_name lc) ≡ some o
          → o.spec ≡ record { core_module = i.core_module; tuples = tuples }
      stored_spec laws tuples w out o h kept = elim (Result-cases (create tuples w).0) [
        | inl (result, called) ↦
            let named =
              laws.settled (get_workspace_name lc) (with_spec i tuples) result.0 result.1 w
                called in
            ground (arith, called, named, kept)
        | inr (inl (x, failed)) ↦ ground (arith, failed, h)
        | inr (inr (x, failed)) ↦ ground (arith, failed, h)
      ]

      all_managed :
          (tuples : List Tuple) (o : Store)
          → o.status.managed_tuples ≡ tuples
          → o.status.store_id ≢ ""
          → check_store tuples unchanged o ≡ done
      unfolding check_store
      all_managed tuples o managed known = ground (
        arith,
        contained tuples o.status.managed_tuples (λ t h. ap (contains_tuple t) managed ∙ h),
        managed,
        eq_iff o.status.store_id "",
        known,
      )

      -- A run that succeeds leaves a Store from which the runs of its own subroutines lead to the end:
      -- if they then succeed one after the other on that Store, and it has an ID, a run of the
      -- initializer in any world where the result is stored is done, with nothing left to wait for.
      -- The account and the clients are taken not to change.
      pub reconcile-Converges :
          (laws : OrgsLaws orgs) (w u w' : W) (out : Outcome) (o o' : Store)
          → (run w).0 ≡ ok out
          → laws.stored (run w).1 (get_workspace_name lc) ≡ some o
          → (reconcile_store fga lib models cluster lister host new_discovery_client mgr o u).0
            ≡ ok (store o')
          → o'.status.store_id ≢ ""
          → laws.stored w' (get_workspace_name lc) ≡ some o'
          → (run w').0 ≡ ok done
      reconcile-Converges laws w u w' out o o' first kept second known kept' = elim run_cases [
        | inl (tuples, steps) ↦
            let spec =
              stored_spec laws tuples w out o (carry (steps w) first)
                (ground (arith, kept, steps w)) in
            let (same, managed) =
              reconcile_store_lem fga lib models cluster lister host new_discovery_client mgr o o' u
                second in
            let fixed : with_spec i tuples o' ≡ o' = ground (arith, same, spec) in
            let found = laws.kept (get_workspace_name lc) (with_spec i tuples) o' w' kept' fixed in
            let end =
              all_managed tuples o' (managed ∙ ap (λ (s : StoreSpec). s.tuples) spec) known in
            ap (λ (r : Result Outcome × W). r.0) (steps w') ∙ ground (arith, found, end)
        | inr never ↦ absurd (never w out first)
      ]
