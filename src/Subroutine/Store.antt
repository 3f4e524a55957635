-- ===== src/Subroutine/Store.antt =====
-- internal/subroutine/store.go: the OpenFGA store behind a Store resource.
pub mod Laws
use security_operator.Prelude.{
  ℕ, String, Bool, List, [], ◌∷◌, Option, none, some, Exec, Error, http, grpc, not_found, no_match,
  wrap, fail, pure, raise, catch, ◌>>=◌, ◌>>◌, ◌==◌, ◌&&◌, false, filter, find, nat_eq,
  if◌then◌else◌,
}
use security_operator.Api.{Store, StoreStatus, AuthorizationModel}
use security_operator.Kube.{Lister}
use security_operator.Fga.Service.{OpenFga, FgaStore, ListStoresResponse}

-- `getRelatedAuthorizationModels` of internal/subroutine/authorization_model.go. The first argument
-- is the cluster of the context.
unfoldable pub is_related : String → Store → AuthorizationModel → Bool
is_related cluster store model =
    model.spec.store_ref.name == store.name && model.spec.store_ref.cluster == cluster

unfoldable pub get_related_authorization_models :
    {W : Type 0} → Option String → Lister W → Store → Exec W (List AuthorizationModel)
unfolding is_related
get_related_authorization_models none lister store =
    raise (fail "unable to get cluster key from context")
get_related_authorization_models (some cluster) lister store = do
  models ← lister.list_authorization_models
  pure (filter (is_related cluster store) models)

abbrev pub set_store_id : String → Store → Store
set_store_id id o = record o { status = record (o.status) { store_id = id } }

-- The status code of an error, through its wrapping.
abbrev has_code : ℕ → Error → Bool
has_code code (grpc c) = nat_eq c code
has_code code (wrap s e) = has_code code e
has_code code (http a b c) = false
has_code code not_found = false
has_code code no_match = false
has_code code (fail s) = false

module _ {W : Type 0} (fga : OpenFga W) where
  abbrev create_named : Store → Exec W Store
  create_named o = do id ← fga.create_store o.name; pure (set_store_id id o)

  abbrev take_or_create : Store → Option FgaStore → Exec W Store
  take_or_create o (some x) = pure (set_store_id x.id o)
  take_or_create o none = create_named o

  unfoldable pub process : Store → Exec W Store
  process o =
      if o.status.store_id == ""
      then (do
        list ← fga.list_stores (record { page_size = none; continuation_token = "" })
        take_or_create o (find (λ x. x.name == o.name) list.stores))
      else (do
        x ← fga.get_store o.status.store_id
        if x.name == o.name then pure o else (do fga.update_store o.status.store_id o.name; pure o))

  abbrev delete_unused : ℕ → Store → List AuthorizationModel → Exec W (Unit {0})
  delete_unused gone o (m ∷ ms) =
      raise (fail "found non-zero count of depending authorization models")
  delete_unused gone o [] =
      catch (fga.delete_store o.status.store_id) (λ e. if has_code gone e then pure tt else raise e)

  -- `gone` is the code `store_id_not_found` of OpenFGA.
  unfoldable pub finalize : ℕ → Option String → Lister W → Store → Exec W (Unit {0})
  unfolding get_related_authorization_models
  finalize gone cluster lister o = if o.status.store_id == "" then pure tt else (do
    models ← get_related_authorization_models cluster lister o
    delete_unused gone o models)
