-- ===== src/Fga/Manager.antt =====
-- internal/fga/tuple_manager.go: sets of tuples written, deleted and listed in one store.
pub mod Laws
pub mod Listing
use security_operator.Prelude.{
  ℕ, zero, suc, String, Bool, List, [], ◌∷◌, ◌++◌, Option, none, some, Exec, fail, pure, raise,
  panic, catch, ◌>>=◌, ◌>>◌, ◌==◌, true, filter, if◌then◌else◌,
}
use security_operator.Api.{Tuple}
use security_operator.Fga.Service.{OpenFga, ReadKey, ReadRequest, ReadResponse}

-- No ID means the latest model.
abbrev pub authorization_model_id_latest : String
authorization_model_id_latest = ""

pub record TupleManager : Type 0 where
  pub store_id : String
  pub authorization_model_id : String

-- The tuples that come with a key.
abbrev pub keys : List (Option Tuple) → List Tuple
keys [] = []
keys (none ∷ ts) = keys ts
keys (some t ∷ ts) = t ∷ keys ts

module _ {W : Type 0} (fga : OpenFga W) where
  abbrev pub count : String → String → Exec W (Unit {0})
  count operation result w = pure tt (fga.count operation result w)

  abbrev pub counting : {A : Type 0} → String → Exec W A → Exec W A
  counting operation call = catch call (λ e. do count operation "error"; raise e)

  unfoldable pub apply : TupleManager → List Tuple → Exec W (Unit {0})
  apply m [] = pure tt
  apply m (t ∷ ts) = do
    counting "apply" (
        fga.write (record {
          store_id = m.store_id;
          authorization_model_id = m.authorization_model_id;
          writes = some (record { tuple_keys = t ∷ ts; on_duplicate = "ignore" });
          deletes = none;
        }))
    count "apply" "success"

  unfoldable pub delete : TupleManager → List Tuple → Exec W (Unit {0})
  delete m [] = pure tt
  delete m (t ∷ ts) = do
    counting "delete" (
        fga.write (record {
          store_id = m.store_id;
          authorization_model_id = m.authorization_model_id;
          writes = none;
          deletes = some (record { tuple_keys = t ∷ ts; on_missing = "ignore" });
        }))
    count "delete" "success"

  abbrev pub page_request : TupleManager → Option ReadKey → String → ReadRequest
  page_request m key token = record {
    store_id = m.store_id;
    tuple_key = key;
    continuation_token = token;
  }

  -- The loop of both list functions, with fuel: `result` is what earlier pages gave. The first
  -- takes every page's tuples through its filter, the second takes all of them.
  pub read_pages :
      ℕ → TupleManager → Option ReadKey → (Tuple → Bool) → String → List Tuple → Exec W (List Tuple)
  read_pages zero m key keep token result = panic "no fuel left"
  read_pages (suc fuel) m key keep token result = do
    resp ← counting "list" (fga.read (page_request m key token))
    let found = result ++ filter keep (keys resp.tuples)
    let rest = read_pages fuel m key keep resp.continuation_token found
    if resp.continuation_token == "" then (do count "list" "success"; pure found) else rest

  unfoldable pub list_with_filter : ℕ → TupleManager → Option (Tuple → Bool) → Exec W (List Tuple)
  unfolding read_pages
  list_with_filter fuel m none = raise (fail "filter function cannot be nil")
  list_with_filter fuel m (some keep) = read_pages fuel m none keep "" []

  unfoldable pub list_with_key : ℕ → TupleManager → ReadKey → Exec W (List Tuple)
  unfolding read_pages
  list_with_key fuel m key = read_pages fuel m (some key) (λ _. true) "" []
