-- ===== src/Subroutine/Tuples.antt =====
-- internal/subroutine/tuples.go: the tuples of a Store or an AuthorizationModel, kept in OpenFGA.
pub mod Laws
pub mod Life
use security_operator.Prelude.{
  String, Bool, List, [], Exec, Error, wrap, pure, raise, context, catch, ◌>>=◌, ◌>>◌, not, filter,
}
use security_operator.Api.{Tuple, Store, AuthorizationModel, contains_tuple}
use security_operator.Kube.{Client, Manager}
use security_operator.Fga.Service.{OpenFga}
use security_operator.Fga.Manager.{TupleManager, apply, delete}

-- The object of the switch on its type; the controllers hand over no other.
pub data Object : Type 0 where
  store : Store → Object
  authorization_model : AuthorizationModel → Object

abbrev pub spec_tuples : Object → List Tuple
spec_tuples (store o) = o.spec.tuples
spec_tuples (authorization_model o) = o.spec.tuples

abbrev pub managed_tuples : Object → List Tuple
managed_tuples (store o) = o.status.managed_tuples
managed_tuples (authorization_model o) = o.managed_tuples

abbrev pub set_managed_tuples : List Tuple → Object → Object
set_managed_tuples ts (store o) =
    store (record o { status = record (o.status) { managed_tuples = ts } })
set_managed_tuples ts (authorization_model o) =
    authorization_model (record o { managed_tuples = ts })

-- The managed tuples that the spec no longer has.
unfoldable pub tuples_to_delete : List Tuple → List Tuple → List Tuple
tuples_to_delete spec managed = filter (λ t. not (contains_tuple t spec)) managed

module _ {W : Type 0} (fga : OpenFga W) (mgr : Manager W) where
  -- A Store has its IDs in its own status, an AuthorizationModel in that of the Store it refers to.
  unfoldable pub tuple_manager : Object → Exec W TupleManager
  tuple_manager (store o) = pure (record {
    store_id = o.status.store_id;
    authorization_model_id = o.status.authorization_model_id;
  })
  tuple_manager (authorization_model o) = do
    cluster ← context "unable to get store cluster" (mgr.get_cluster o.spec.store_ref.cluster)
    s ← cluster.get_store o.spec.store_ref.name
    pure (record {
      store_id = s.status.store_id;
      authorization_model_id = s.status.authorization_model_id;
    })

  -- The object is returned with its new status. An error leaves the status as it was.
  unfoldable pub process : Object → Exec W Object
  unfolding tuple_manager tuples_to_delete
  process o = do
    tm ← tuple_manager o
    apply fga tm (spec_tuples o)
    delete fga tm (tuples_to_delete (spec_tuples o) (managed_tuples o))
    pure (set_managed_tuples (spec_tuples o) o)

  unfoldable pub finalize : Object → Exec W Object
  unfolding tuple_manager
  finalize o = do
    tm ← tuple_manager o
    delete fga tm (managed_tuples o)
    pure (set_managed_tuples [] o)
