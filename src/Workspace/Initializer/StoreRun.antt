-- ===== src/Workspace/Initializer/StoreRun.antt =====
-- The subroutines of a Store one after the other.
use security_operator.Prelude.{
  String, List, [], ◌∷◌, Option, Exec, ok, ◌≡◌, refl, arith, any, not, bind-ok, ◌>>=◌, true, false,
}
use security_operator.Api.{Tuple, tuple_eq_iff, contains_tuple, Store}
use security_operator.Kube.{Manager, Lister}
use security_operator.Fga.Service.{OpenFga}
use security_operator.Subroutine.Store.{process as process_store}
use security_operator.Subroutine.Tuples.{
  process as process_tuples, Object, store, set_managed_tuples,
}
use security_operator.Subroutine.AuthorizationModel.{
  Libraries, Models, ApiResourceList, write_model, update_model, process as process_model,
}

pub contained :
    (ts us : List Tuple)
    → ((t : Tuple) → contains_tuple t ts ≡ true → contains_tuple t us ≡ true)
    → any (λ t. not (contains_tuple t us)) ts ≡ false
contained [] us sub = refl
contained (t ∷ ts) us sub =
    let rest = contained ts us (λ u inside. sub u (ground (arith, inside))) in
    ground (arith, rest, sub t, tuple_eq_iff t t)

process_store-spec :
    {W : Type 0} (fga : OpenFga W) (o o' : Store) (w : W)
    → (process_store fga o w).0 ≡ ok o'
    → o'.spec ≡ o.spec
unfolding process_store
process_store-spec fga o o' w h = ground arith

process_tuples_lem :
    {W : Type 0} (fga : OpenFga W) (mgr : Manager W) (o : Store) (o' : Object) (w : W)
    → (process_tuples fga mgr (store o) w).0 ≡ ok o'
    → o' ≡ set_managed_tuples o.spec.tuples (store o)
unfolding process_tuples
process_tuples_lem fga mgr o o' w h = ground arith

process_model-spec :
    {W U M : Type 0} (lib : Libraries U M) (fga : Models W M) (cluster : Option String)
    (lister : Lister W) (host : String)
    (new_discovery_client : String → String → Exec W ApiResourceList) (o o' : Store) (w : W)
    → (process_model lib fga cluster lister host new_discovery_client o w).0 ≡ ok o'
    → o'.spec ≡ o.spec
unfolding process_model update_model write_model
process_model-spec lib fga cluster lister host new_discovery_client o o' w h = ground arith

module _ {W U M : Type 0} (fga : OpenFga W) (lib : Libraries U M) (models : Models W M)
    (cluster : Option String) (lister : Lister W) (host : String)
    (new_discovery_client : String → String → Exec W ApiResourceList) (mgr : Manager W) where
  -- internal/controller/store_controller.go: the subroutines of a Store in their order.
  unfoldable pub reconcile_store : Store → Exec W Object
  reconcile_store o = do
    with_id ← process_store fga o
    with_model ← process_model lib models cluster lister host new_discovery_client with_id
    process_tuples fga mgr (store with_model)

  pub reconcile_store_lem :
      (o o' : Store) (w : W)
      → (reconcile_store o w).0 ≡ ok (store o')
      → (o'.spec ≡ o.spec) × (o'.status.managed_tuples ≡ o.spec.tuples)
  unfolding reconcile_store
  reconcile_store_lem o o' w h =
      let model = process_model lib models cluster lister host new_discovery_client in
      let rest : Store → Exec W Object = λ s. model s >>= λ m. process_tuples fga mgr (store m) in
      let (s, r₁, h₁) = bind-ok (process_store fga o) rest w h in
      let (m, r₂, h₂) =
        bind-ok (model s) (λ m. process_tuples fga mgr (store m)) (process_store fga o w).1 h₁ in
      ground (
        arith,
        process_store-spec fga o s w r₁,
        process_model-spec lib models cluster lister host new_discovery_client s m
            (process_store fga o w).1 r₂,
        process_tuples_lem fga mgr m (store o') (model s (process_store fga o w).1).1 h₂,
      )
