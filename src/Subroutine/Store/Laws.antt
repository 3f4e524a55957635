-- ===== src/Subroutine/Store/Laws.antt =====
-- Which OpenFGA store a Store ends up with, and when it may be deleted.
use security_operator.Prelude.{
  ℕ, String, Bool, List, [], ◌∷◌, Option, none, some, err, ok, fail, ◌≡◌, ◌≢◌, refl, sym, arith,
  ◌==◌, eq_iff, true, filter, find, any, Option-cases, inl, inr, Bool-cases, bind-eq-ok, pure,
}
use security_operator.Api.{Store, AuthorizationModel}
use security_operator.Kube.{Lister}
use security_operator.Fga.Service.{OpenFga, FgaStore, ListStoresRequest, ListStoresResponse}
use security_operator.Subroutine.Store.{
  is_related, set_store_id, process, finalize, take_or_create, create_named,
}

-- What is documented of the calls on stores. `name_of` is the name of the store with an ID.
pub record StoreLaws {W : Type 0} (fga : OpenFga W) : Type 0 where
  pub name_of : W → String → Option String
  pub listed :
      (req : ListStoresRequest) (resp : ListStoresResponse) (w : W) (p : FgaStore → Bool)
      (x : FgaStore)
      → (fga.list_stores req w).0 ≡ ok resp
      → find p resp.stores ≡ some x
      → name_of (fga.list_stores req w).1 x.id ≡ some x.name
  pub created :
      (name id : String) (w : W)
      → (fga.create_store name w).0 ≡ ok id
      → name_of (fga.create_store name w).1 id ≡ some name
  pub fresh : (name id : String) (w : W) → (fga.create_store name w).0 ≡ ok id → name_of w id ≡ none
  pub kept :
      (name id other : String) (w : W)
      → (fga.create_store name w).0 ≡ ok id
      → other ≢ id
      → name_of (fga.create_store name w).1 other ≡ name_of w other
  pub answered :
      (id : String) (x : FgaStore) (w : W)
      → (fga.get_store id w).0 ≡ ok x
      → name_of (fga.get_store id w).1 id ≡ some x.name
  pub updated :
      (id name : String) (w : W)
      → (fga.update_store id name w).0 ≡ ok tt
      → name_of (fga.update_store id name w).1 id ≡ some name

find_sound {ℓ} : {A : Type ℓ} (p : A → Bool) (xs : List A) (x : A) → find p xs ≡ some x → p x ≡ true
find_sound p [] x h = cc
find_sound p (y ∷ ys) x h = ground (arith, find_sound p ys x)

module _ {W : Type 0} (fga : OpenFga W) (laws : StoreLaws fga) where
  open laws use {name_of, listed, created, fresh, kept, answered, updated}

  abbrev first_page : ListStoresRequest
  first_page = record { page_size = none; continuation_token = "" }

  abbrev named : Store → FgaStore → Bool
  named o x = x.name == o.name

  name-take_or_create :
      (o o' : Store) (resp : ListStoresResponse) (w : W)
      → (fga.list_stores first_page w).0 ≡ ok resp
      → (take_or_create fga o (find (named o) resp.stores) (fga.list_stores first_page w).1).0
        ≡ ok o'
      → name_of
          (take_or_create fga o (find (named o) resp.stores) (fga.list_stores first_page w).1).1
          o'.status.store_id
        ≡ some o.name
  name-take_or_create o o' resp w answer done =
      let w1 = (fga.list_stores first_page w).1 in
      elim (Option-cases (find (named o) resp.stores)) [
        | inl absent ↦
            let done' = rw absent at done in
            let (id, made, step) =
              bind-eq-ok (fga.create_store o.name) (λ id. pure (set_store_id id o)) w1 done' in
            rw absent (ground (arith, made, step, created o.name id w1))
        | inr (x, present) ↦ rw present (
            ground (
              arith,
              rw present at done,
              listed first_page resp w (named o) x answer present,
              find_sound (named o) resp.stores x present,
              eq_iff x.name o.name,
            ))
      ]

  -- After a successful `Process` the ID of the status is that of an OpenFGA store with the name of
  -- the Store, whether it was found, created, renamed or left alone.
  pub name-process :
      (o o' : Store) (w : W)
      → (process fga o w).0 ≡ ok o'
      → name_of (process fga o w).1 o'.status.store_id ≡ some o.name
  unfolding process
  name-process o o' w done = elim (Bool-cases (o.status.store_id == "")) [
    | inl unset ↦
        let (resp, answer, step) =
          bind-eq-ok (fga.list_stores first_page)
            (λ list. take_or_create fga o (find (named o) list.stores)) w (rw unset at done) in
        rw (unset, step) (name-take_or_create o o' resp w answer (rw (unset, step) at done))
    | inr known ↦ rw known (grind (arith, answered, updated, eq_iff, rw known at done))
  ]

  process_absent :
      (o : Store) (resp : ListStoresResponse) (w : W)
      → o.status.store_id ≡ ""
      → (fga.list_stores first_page w).0 ≡ ok resp
      → find (named o) resp.stores ≡ none
      → process fga o w ≡ create_named fga o (fga.list_stores first_page w).1
  unfolding process
  process_absent o resp w unset answer absent =
      rw ((eq_iff o.status.store_id "").1 unset) (rw answer (rw absent refl))

  -- On a Store with no ID, only the first page of stores is looked at: if a store has the name and
  -- is on a later page, `Process` makes a second store of that name.
  pub process_duplicates :
      (o o' : Store) (resp : ListStoresResponse) (w : W) (other : String)
      → o.status.store_id ≡ ""
      → (fga.list_stores first_page w).0 ≡ ok resp
      → find (named o) resp.stores ≡ none
      → name_of (fga.list_stores first_page w).1 other ≡ some o.name
      → (process fga o w).0 ≡ ok o'
      → (o'.status.store_id ≢ other)
        × (name_of (process fga o w).1 o'.status.store_id ≡ some o.name)
        × (name_of (process fga o w).1 other ≡ some o.name)
  unfolding process
  process_duplicates o o' resp w other unset answer absent hidden done =
      let w1 = (fga.list_stores first_page w).1 in
      let step = process_absent o resp w unset answer absent in
      let (id, made, rest) =
        bind-eq-ok (fga.create_store o.name) (λ id. pure (set_store_id id o)) w1
          (rw step at done) in
      let new : id ≢ other = λ e. ground (arith, fresh o.name id w1 made, e) in
      rw step (
        (λ e. new (ground (arith, rw step at done, rest, e))),
        ground (arith, rw step at done, rest, created o.name id w1 made),
        ground (arith, rest, kept o.name id other w1 made (λ e. new (sym e))),
      )

filter-any {ℓ} :
    {A : Type ℓ} (p : A → Bool) (xs : List A)
    → any p xs ≡ true
    → (y : A) × (ys : List A) × (filter p xs ≡ y ∷ ys)
filter-any p [] h = cc
filter-any p (x ∷ xs) h = elim (Bool-cases (p x)) [
  | inl here ↦ (x, filter p xs, rw here)
  | inr later ↦ let (y, ys, e) = filter-any p xs (rw later at h) in (y, ys, rw later e)
]

-- `Finalize` deletes nothing while a listed AuthorizationModel refers to the Store: it is an
-- error, and the world is as the listing left it.
pub finalize_guard :
    {W : Type 0} (fga : OpenFga W) (gone : ℕ) (cluster : String) (lister : Lister W) (o : Store)
    (models : List AuthorizationModel) (w : W)
    → o.status.store_id ≢ ""
    → (lister.list_authorization_models w).0 ≡ ok models
    → any (is_related cluster o) models ≡ true
    → finalize fga gone (some cluster) lister o w ≡ (
      err (fail "found non-zero count of depending authorization models"),
      (lister.list_authorization_models w).1,
    )
unfolding finalize
finalize_guard fga gone cluster lister o models w known answer related =
    let (m, ms, found) = filter-any (is_related cluster o) models related in
    ground (arith, eq_iff o.status.store_id "", found)
