-- ===== src/Fga/Service.antt =====
-- The OpenFGA service and the metrics that the code calls, as parameters. `W` is the state of the
-- world outside the operator: the calls read it and change it.
use security_operator.Prelude.{
  ℕ, String, Bool, List, Option, none, some, ◌≡◌, ◌≢◌, ◌||◌, ◌&&◌, not, ◌==◌, if◌then◌else◌, Exec,
  ok,
}
use security_operator.Api.{Tuple, contains_tuple}

pub record Writes : Type 0 where
  pub tuple_keys : List Tuple
  pub on_duplicate : String

pub record Deletes : Type 0 where
  pub tuple_keys : List Tuple
  pub on_missing : String

pub record WriteRequest : Type 0 where
  pub store_id : String
  pub authorization_model_id : String
  pub writes : Option Writes
  pub deletes : Option Deletes

-- A field of the key that is not set is the empty text.
pub record ReadKey : Type 0 where
  pub object : String
  pub relation : String
  pub user : String

pub record ReadRequest : Type 0 where
  pub store_id : String
  pub tuple_key : Option ReadKey
  pub continuation_token : String

-- A tuple of the answer may come without its key.
pub record ReadResponse : Type 0 where
  pub tuples : List (Option Tuple)
  pub continuation_token : String

pub record FgaStore : Type 0 where
  pub id : String
  pub name : String

pub record ListStoresRequest : Type 0 where
  pub page_size : Option ℕ
  pub continuation_token : String

pub record ListStoresResponse : Type 0 where
  pub stores : List FgaStore
  pub continuation_token : String

pub record OpenFga (W : Type 0) : Type 0 where
  pub write : WriteRequest → Exec W (Unit {0})
  pub read : ReadRequest → Exec W ReadResponse
  pub list_stores : ListStoresRequest → Exec W ListStoresResponse
  pub create_store : String → Exec W String
  pub get_store : String → Exec W FgaStore
  pub update_store : String → String → Exec W (Unit {0})
  pub delete_store : String → Exec W (Unit {0})
  -- metrics.FGAOperations.WithLabelValues(operation, result).Inc()
  pub count : String → String → W → W

-- What is documented of writing: a request is one transaction, and with "ignore" a tuple that is
-- there already, or is missing, does not make it fail. `holds` says which tuples a store has.
pub record WriteLaws {W : Type 0} (fga : OpenFga W) : Type 0 where
  pub holds : W → String → Tuple → Bool
  pub written :
      (store model : String) (ts : List Tuple) (w : W) (s : String) (t : Tuple)
      → let req : WriteRequest = record {
        store_id = store;
        authorization_model_id = model;
        writes = some (record { tuple_keys = ts; on_duplicate = "ignore" });
        deletes = none;
      } in
        (fga.write req w).0 ≡ ok tt
        → holds (fga.write req w).1 s t
          ≡ (if s == store then contains_tuple t ts || holds w s t else holds w s t)
  pub deleted :
      (store model : String) (ts : List Tuple) (w : W) (s : String) (t : Tuple)
      → let req : WriteRequest = record {
        store_id = store;
        authorization_model_id = model;
        writes = none;
        deletes = some (record { tuple_keys = ts; on_missing = "ignore" });
      } in
        (fga.write req w).0 ≡ ok tt
        → holds (fga.write req w).1 s t
          ≡ (if s == store then not (contains_tuple t ts) && holds w s t else holds w s t)
  pub refused :
      (req : WriteRequest) (w : W) (s : String) (t : Tuple)
      → (fga.write req w).0 ≢ ok tt
      → holds (fga.write req w).1 s t ≡ holds w s t
  pub counted :
      (operation result : String) (w : W) (s : String) (t : Tuple)
      → holds (fga.count operation result w) s t ≡ holds w s t

-- A call that leaves every store as it was.
abbrev pub IsQuiet : {W A : Type 0} {fga : OpenFga W} → WriteLaws fga → Exec W A → Type 0
IsQuiet {W} laws m = (w : W) (s : String) (t : Tuple) → laws.holds (m w).1 s t ≡ laws.holds w s t
