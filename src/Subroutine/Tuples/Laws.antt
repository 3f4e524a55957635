-- ===== src/Subroutine/Tuples/Laws.antt =====
-- What a store holds after `Process` and `Finalize`, and what is left behind when they fail half way.
use security_operator.Prelude.{
  String, List, [], ◌∷◌, ◌≡◌, ◌≢◌, refl, Result, ok, err, crash, ◌==◌, ◌||◌, ◌&&◌, not, arith,
  if◌then◌else◌, ◌⊎◌, filter, Bool-cases, inl, inr,
}
use security_operator.Api.{Tuple, tuple_eq, tuple_eq_iff, contains_tuple}
use security_operator.Kube.{Manager}
use security_operator.Fga.Service.{OpenFga, WriteLaws, IsQuiet}
use security_operator.Fga.Manager.{TupleManager, apply}
use security_operator.Fga.Manager.Laws.{
  holds-apply, holds-delete, holds-apply_failed, holds-delete_failed,
}
use security_operator.Subroutine.Tuples.{
  Object, spec_tuples, managed_tuples, set_managed_tuples, tuples_to_delete, tuple_manager, process,
  finalize,
}

contains-filter-not :
    (t : Tuple) (spec managed : List Tuple)
    → contains_tuple t (filter (λ u. not (contains_tuple u spec)) managed)
      ≡ (contains_tuple t managed && not (contains_tuple t spec))
contains-filter-not t spec [] = refl
contains-filter-not t spec (u ∷ us) = elim (Bool-cases (tuple_eq t u)) [
  | inl same ↦
      rw (← (tuple_eq_iff t u).0 same)
        (ground (arith, contains-filter-not t spec us, tuple_eq_iff t t))
  | inr other ↦ ground (arith, contains-filter-not t spec us)
]

Done-cases : (r : Result (Unit {0})) → (r ≡ ok tt) ⊎ (r ≢ ok tt)
Done-cases (ok u) = inl refl
Done-cases (err e) = inr (λ h. cc)
Done-cases (crash s) = inr (λ h. cc)

module _ {W : Type 0} (fga : OpenFga W) (mgr : Manager W) (laws : WriteLaws fga) where
  open laws use {holds}

  -- If the store is found and `Process` succeeds, the store holds the tuples of the spec and what it
  -- held except for the managed tuples, every other store holds what it held, and the status lists
  -- the tuples of the spec. Finding the store leaves OpenFGA as it is.
  pub process_lem :
      (o o' : Object) (tm : TupleManager) (w : W)
      → IsQuiet laws (tuple_manager fga mgr o)
      → (tuple_manager fga mgr o w).0 ≡ ok tm
      → (process fga mgr o w).0 ≡ ok o'
      → (o' ≡ set_managed_tuples (spec_tuples o) o)
        × ((s : String) (t : Tuple)
            → holds (process fga mgr o w).1 s t ≡ (
                if s == tm.store_id
                then contains_tuple t (spec_tuples o)
                  || (holds w s t && not (contains_tuple t (managed_tuples o)))
                else holds w s t))
  unfolding process
  process_lem o o' tm w quiet found done = (
    ground arith,
    λ s t.
        let w1 = (tuple_manager fga mgr o w).1 in
        let gone = tuples_to_delete (spec_tuples o) (managed_tuples o) in
        ground (
          arith,
          quiet w s t,
          holds-apply fga laws tm (spec_tuples o) w1 s t,
          holds-delete fga laws tm gone (apply fga tm (spec_tuples o) w1).1 s t,
          contains-filter-not t (spec_tuples o) (managed_tuples o),
        ),
  )

  -- If the store is found and `Process` fails, no store has lost a tuple: either every store holds
  -- what it held, or the object's store holds the tuples of the spec as well and every other store
  -- what it held. Finding the store leaves OpenFGA as it is.
  pub process_failed :
      (o : Object) (tm : TupleManager) (w : W)
      → IsQuiet laws (tuple_manager fga mgr o)
      → (tuple_manager fga mgr o w).0 ≡ ok tm
      → ((o' : Object) → (process fga mgr o w).0 ≢ ok o')
      → ((s : String) (t : Tuple) → holds (process fga mgr o w).1 s t ≡ holds w s t)
        ⊎ ((s : String) (t : Tuple)
            → holds (process fga mgr o w).1 s t ≡ (
                if s == tm.store_id
                then contains_tuple t (spec_tuples o) || holds w s t
                else holds w s t))
  unfolding process
  process_failed o tm w quiet found fails = elim (Done-cases (apply fga tm (spec_tuples o) w1).0) [
    | inl applied ↦ inr (λ s t. ground (
      arith,
      quiet w s t,
      holds-apply fga laws tm (spec_tuples o) w1 s t,
      holds-delete_failed fga laws tm gone (apply fga tm (spec_tuples o) w1).1 s t,
      fails (set_managed_tuples (spec_tuples o) o),
    ))
    | inr refused ↦
        inl (λ s t.
          ground (arith, quiet w s t, holds-apply_failed fga laws tm (spec_tuples o) w1 s t))
  ]
    where
      w1 : W
      w1 = (tuple_manager fga mgr o w).1

      gone : List Tuple
      gone = tuples_to_delete (spec_tuples o) (managed_tuples o)

  -- If `Finalize` fails, every store holds what it held.
  pub finalize_failed :
      (o : Object) (tm : TupleManager) (w : W)
      → IsQuiet laws (tuple_manager fga mgr o)
      → (tuple_manager fga mgr o w).0 ≡ ok tm
      → ((o' : Object) → (finalize fga mgr o w).0 ≢ ok o')
      → (s : String) (t : Tuple) → holds (finalize fga mgr o w).1 s t ≡ holds w s t
  unfolding finalize
  finalize_failed o tm w quiet found fails s t = ground (
    arith,
    quiet w s t,
    holds-delete_failed fga laws tm (managed_tuples o) (tuple_manager fga mgr o w).1 s t,
    fails (set_managed_tuples [] o),
  )

  -- If the store is found and `Finalize` succeeds, the store holds what it held except for the
  -- managed tuples, every other store holds what it held, and the status lists no tuple.
  pub finalize_lem :
      (o o' : Object) (tm : TupleManager) (w : W)
      → IsQuiet laws (tuple_manager fga mgr o)
      → (tuple_manager fga mgr o w).0 ≡ ok tm
      → (finalize fga mgr o w).0 ≡ ok o'
      → (o' ≡ set_managed_tuples [] o)
        × ((s : String) (t : Tuple)
            → holds (finalize fga mgr o w).1 s t ≡ (
                if s == tm.store_id
                then not (contains_tuple t (managed_tuples o)) && holds w s t
                else holds w s t))
  unfolding finalize
  finalize_lem o o' tm w quiet found done = (
    ground arith,
    λ s t. ground (
      arith,
      quiet w s t,
      holds-delete fga laws tm (managed_tuples o) (tuple_manager fga mgr o w).1 s t,
    ),
  )
