-- ===== src/Subroutine/Tuples/Life.antt =====
-- The life of a Store's tuples: edits of the spec, calls of `Process` and of `Finalize` in any order.
use security_operator.Prelude.{◌≡◌, ◌≢◌, refl, ◌∙◌, ok, arith, inl, inr, true, eq_refl}
use security_operator.Api.{Tuple, contains_tuple, Store, StoreSpec}
use security_operator.Kube.{Manager}
use security_operator.Fga.Service.{OpenFga, WriteLaws, IsQuiet}
use security_operator.Fga.Manager.{TupleManager}
use security_operator.Subroutine.Tuples.{Object, store, tuple_manager, process, finalize}
use security_operator.Subroutine.Tuples.Laws.{
  process_lem, process_failed, finalize_lem, finalize_failed,
}

module _ {W : Type 0} (fga : OpenFga W) (mgr : Manager W) where
  pub data Step : Store → W → Store → W → Type 0 where
    edit : (o : Store) (w : W) (spec : StoreSpec) → Step o w (record o { spec = spec }) w
    succeed :
        (o : Store) (w : W) {o' : Store} {w' : W}
        → (process fga mgr (store o) w).0 ≡ ok (store o')
        → w' ≡ (process fga mgr (store o) w).1
        → Step o w o' w'
    break :
        (o : Store) (w : W) {w' : W}
        → ((o' : Object) → (process fga mgr (store o) w).0 ≢ ok o')
        → w' ≡ (process fga mgr (store o) w).1
        → Step o w o w'
    finish :
        (o : Store) (w : W) {o' : Store} {w' : W}
        → (finalize fga mgr (store o) w).0 ≡ ok (store o')
        → w' ≡ (finalize fga mgr (store o) w).1
        → Step o w o' w'
    stick :
        (o : Store) (w : W) {w' : W}
        → ((o' : Object) → (finalize fga mgr (store o) w).0 ≢ ok o')
        → w' ≡ (finalize fga mgr (store o) w).1
        → Step o w o w'

  pub data Reach (o : Store) (w : W) : Store → W → Type 0 where
    here : Reach o w o w
    next : {o' o'' : Store} {w' w'' : W} → Reach o w o' w' → Step o' w' o'' w'' → Reach o w o'' w''

  module _ (laws : WriteLaws fga) where
    open laws use {holds}

    -- What the status lists, the store holds.
    abbrev pub IsHeld : Store → W → Type 0
    IsHeld o w =
        (t : Tuple)
        → contains_tuple t o.status.managed_tuples ≡ true
        → holds w o.status.store_id t ≡ true

    manager_of : Store → TupleManager
    manager_of o = record {
      store_id = o.status.store_id;
      authorization_model_id = o.status.authorization_model_id;
    }

    found_store : (o : Store) (w : W) → (tuple_manager fga mgr (store o) w).0 ≡ ok (manager_of o)
    unfolding tuple_manager manager_of
    found_store o w = refl

    IsQuiet-store : (o : Store) → IsQuiet laws (tuple_manager fga mgr (store o))
    unfolding tuple_manager
    IsQuiet-store o w s t = refl

    succeed-IsHeld :
        (o o' : Store) (w : W)
        → (process fga mgr (store o) w).0 ≡ ok (store o')
        → IsHeld o' (process fga mgr (store o) w).1
    unfolding manager_of
    succeed-IsHeld o o' w done t listed =
        let (status, held) =
          process_lem fga mgr laws (store o) (store o') (manager_of o) w (IsQuiet-store o)
            (found_store o w) done in
        ground (arith, held o'.status.store_id t, eq_refl o.status.store_id)

    break-IsHeld :
        (o : Store) (w : W)
        → ((o' : Object) → (process fga mgr (store o) w).0 ≢ ok o')
        → IsHeld o w
        → IsHeld o (process fga mgr (store o) w).1
    unfolding manager_of
    break-IsHeld o w fails before t listed =
        let old = before t listed in
        elim (process_failed fga mgr laws (store o) (manager_of o) w (IsQuiet-store o)
          (found_store o w) fails) [
            | inl same ↦ same o.status.store_id t ∙ old
            | inr added ↦ ground (arith, added o.status.store_id t)
          ]

    finish-IsHeld :
        (o o' : Store) (w : W)
        → (finalize fga mgr (store o) w).0 ≡ ok (store o')
        → IsHeld o' (finalize fga mgr (store o) w).1
    unfolding manager_of
    finish-IsHeld o o' w done t listed =
        let (status, held) =
          finalize_lem fga mgr laws (store o) (store o') (manager_of o) w (IsQuiet-store o)
            (found_store o w) done in
        ground (arith, status)

    stick-IsHeld :
        (o : Store) (w : W)
        → ((o' : Object) → (finalize fga mgr (store o) w).0 ≢ ok o')
        → IsHeld o w
        → IsHeld o (finalize fga mgr (store o) w).1
    stick-IsHeld o w fails before t listed =
        finalize_failed fga mgr laws (store o) (manager_of o) w (IsQuiet-store o) (found_store o w)
          fails o.status.store_id t
        ∙ before t listed

    Step-IsHeld : {o o' : Store} {w w' : W} → Step o w o' w' → IsHeld o w → IsHeld o' w'
    Step-IsHeld (edit o w spec) h = h
    Step-IsHeld (succeed o w {o' = o'} done eq) h = rw eq (succeed-IsHeld o o' w done)
    Step-IsHeld (break o w fails eq) h = rw eq (break-IsHeld o w fails h)
    Step-IsHeld (finish o w {o' = o'} done eq) h = rw eq (finish-IsHeld o o' w done)
    Step-IsHeld (stick o w fails eq) h = rw eq (stick-IsHeld o w fails h)

    -- However edits of the spec, calls of `Process` and calls of `Finalize`, failing ones too, follow
    -- one another: if the store held all tuples that the status listed at the start, it does so at the
    -- end.
    pub Reach-IsHeld :
        {o : Store} {w : W} {o' : Store} {w' : W} → Reach o w o' w' → IsHeld o w → IsHeld o' w'
    Reach-IsHeld here h = h
    Reach-IsHeld (next r st) h = Step-IsHeld st (Reach-IsHeld r h)
