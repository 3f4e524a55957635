-- ===== src/Fga/Manager/Laws.antt =====
-- Writing and deleting tuples, as to what the stores hold afterwards.
use security_operator.Prelude.{
  String, List, [], ◌∷◌, ◌≡◌, ◌≢◌, refl, ok, ◌==◌, ◌||◌, ◌&&◌, not, arith, if◌then◌else◌, none,
  some,
}
use security_operator.Api.{Tuple, contains_tuple}
use security_operator.Fga.Service.{OpenFga, WriteLaws, WriteRequest}
use security_operator.Fga.Manager.{TupleManager, apply, delete}

module _ {W : Type 0} (fga : OpenFga W) (laws : WriteLaws fga) where
  open laws use {holds, written, deleted, refused, counted}

  abbrev writes_of : TupleManager → List Tuple → WriteRequest
  writes_of m ts = record {
    store_id = m.store_id;
    authorization_model_id = m.authorization_model_id;
    writes = some (record { tuple_keys = ts; on_duplicate = "ignore" });
    deletes = none;
  }

  -- After a successful call the store holds the given tuples and what it held, and every other
  -- store holds what it held.
  pub holds-apply :
      (m : TupleManager) (ts : List Tuple) (w : W) (s : String) (t : Tuple)
      → (apply fga m ts w).0 ≡ ok tt
      → holds (apply fga m ts w).1 s t
        ≡ (if s == m.store_id then contains_tuple t ts || holds w s t else holds w s t)
  unfolding apply
  holds-apply m [] w s t h = ground arith
  holds-apply m (u ∷ us) w s t h = ground (
    arith,
    written m.store_id m.authorization_model_id (u ∷ us) w s t,
    counted "apply" "success" (fga.write (writes_of m (u ∷ us)) w).1 s t,
  )

  -- A call that fails leaves every store as it was.
  pub holds-apply_failed :
      (m : TupleManager) (ts : List Tuple) (w : W) (s : String) (t : Tuple)
      → (apply fga m ts w).0 ≢ ok tt
      → holds (apply fga m ts w).1 s t ≡ holds w s t
  unfolding apply
  holds-apply_failed m [] w s t h = refl
  holds-apply_failed m (u ∷ us) w s t h = ground (
    arith,
    refused (writes_of m (u ∷ us)) w s t,
    counted "apply" "error" (fga.write (writes_of m (u ∷ us)) w).1 s t,
  )

  abbrev deletes_of : TupleManager → List Tuple → WriteRequest
  deletes_of m ts = record {
    store_id = m.store_id;
    authorization_model_id = m.authorization_model_id;
    writes = none;
    deletes = some (record { tuple_keys = ts; on_missing = "ignore" });
  }

  -- After a successful call the store holds what it held without the given tuples, and every other
  -- store holds what it held.
  pub holds-delete :
      (m : TupleManager) (ts : List Tuple) (w : W) (s : String) (t : Tuple)
      → (delete fga m ts w).0 ≡ ok tt
      → holds (delete fga m ts w).1 s t
        ≡ (if s == m.store_id then not (contains_tuple t ts) && holds w s t else holds w s t)
  unfolding delete
  holds-delete m [] w s t h = ground arith
  holds-delete m (u ∷ us) w s t h = ground (
    arith,
    deleted m.store_id m.authorization_model_id (u ∷ us) w s t,
    counted "delete" "success" (fga.write (deletes_of m (u ∷ us)) w).1 s t,
  )

  -- A call that fails leaves every store as it was.
  pub holds-delete_failed :
      (m : TupleManager) (ts : List Tuple) (w : W) (s : String) (t : Tuple)
      → (delete fga m ts w).0 ≢ ok tt
      → holds (delete fga m ts w).1 s t ≡ holds w s t
  unfolding delete
  holds-delete_failed m [] w s t h = refl
  holds-delete_failed m (u ∷ us) w s t h = ground (
    arith,
    refused (deletes_of m (u ∷ us)) w s t,
    counted "delete" "error" (fga.write (deletes_of m (u ∷ us)) w).1 s t,
  )
