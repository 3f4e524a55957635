-- ===== src/Fga/StoreId/Laws.antt =====
-- What the getter of store IDs answers: from the cache, after loading, and after a failed load.
use mathlib.Core.List.{reverse, reverse_aux}
use security_operator.Prelude.{
  ℕ, zero, suc, ◌<◌, String, List, [], ◌∷◌, ◌++◌, Option, none, some, Exec, Error, Result, ok, err,
  crash, fail, ◌==◌, ◌≡◌, ◌≢◌, refl, arith, eq_iff, true, false, inl, inr, find, Option-cases,
  Bool-cases,
}
use security_operator.Prelude.Text.{is_some}
use security_operator.Fga.Service.{OpenFga, FgaStore, ListStoresResponse}
use security_operator.Fga.StoreId.{
  State, Cache, CacheLaws, set_all, wanted_item, stores_request, load_pages, load, get, loaded,
}

abbrev pub HasError : {W : Type 0} → State W → Type 0
HasError s = is_some s.load_err ≡ true

abbrev pub IsOk : {A : Type 0} → Result A → Type 0
IsOk (ok a) = Unit
IsOk (err e) = ⊥
IsOk (crash s) = ⊥

module _ {W : Type 0} (fga : OpenFga W) (cache : Cache W) where
  loaded-HasError :
      (rest : String → Option String → Exec (State W) (Option String)) (name : String)
      (item : Option String) (old : Option Error) (r : Result ListStoresResponse) (w : W)
      → ((token : String) (item : Option String) (s : State W)
          → HasError s
          → HasError (rest token item s).1)
      → is_some old ≡ true
      → HasError (loaded fga cache rest name item old r w).1
  loaded-HasError rest name item old (ok resp) w keep h =
      elim (Bool-cases (resp.continuation_token == "")) [
        | inl end ↦ rw end h
        | inr cont ↦ rw cont (keep resp.continuation_token _ _ h)
      ]
  loaded-HasError rest name item old (err e) w keep h = refl
  loaded-HasError rest name item old (crash msg) w keep h = h

  load_pages-HasError :
      (fuel : ℕ) (name token : String) (item : Option String) (s : State W)
      → HasError s
      → HasError (load_pages fga cache fuel name token item s).1
  unfolding load_pages
  load_pages-HasError zero name token item s h = h
  load_pages-HasError (suc fuel) name token item s h =
      loaded-HasError (load_pages fga cache fuel name) name item s.load_err
        (fga.list_stores (stores_request fga cache token) s.world).0
        (fga.list_stores (stores_request fga cache token) s.world).1
        (λ token item s. load_pages-HasError fuel name token item s) h

  -- The stores that the pages from a token on list, and the world that is left when all of them are
  -- in the cache. There are `n + 1` pages.
  pub data StorePages : ℕ → String → W → List FgaStore → W → Type 0 where
    last :
        {token : String} {w : W} {xs : List FgaStore} {w' w'' : W} (resp : ListStoresResponse)
        → fga.list_stores (stores_request fga cache token) w ≡ (ok resp, w'')
        → resp.continuation_token ≡ ""
        → xs ≡ resp.stores
        → w' ≡ set_all fga cache resp.stores w''
        → StorePages zero token w xs w'
    more :
        {n : ℕ} {token : String} {w : W} {xs ys : List FgaStore} {w' w'' : W}
        (resp : ListStoresResponse)
        → fga.list_stores (stores_request fga cache token) w ≡ (ok resp, w'')
        → resp.continuation_token ≢ ""
        → StorePages n resp.continuation_token (set_all fga cache resp.stores w'') ys w'
        → xs ≡ resp.stores ++ ys
        → StorePages (suc n) token w xs w'

  wanted_item-append :
      (name : String) (xs ys : List FgaStore) (item : Option String)
      → wanted_item fga cache name (xs ++ ys) item
        ≡ wanted_item fga cache name ys (wanted_item fga cache name xs item)
  wanted_item-append name [] ys item = refl
  wanted_item-append name (x ∷ xs) ys item = wanted_item-append name xs ys _

  abbrev id_of : Option FgaStore → Option String
  id_of none = none
  id_of (some x) = some x.id

  -- What the loop keeps is the ID of the last store of the name.
  wanted_item-reverse :
      (name : String) (xs seen : List FgaStore)
      → wanted_item fga cache name xs (id_of (find (λ x. x.name == name) seen))
        ≡ id_of (find (λ x. x.name == name) (reverse_aux xs seen))
  wanted_item-reverse name [] seen = refl
  wanted_item-reverse name (x ∷ xs) seen = elim (Bool-cases (x.name == name)) [
    | inl same ↦ ground (arith, same, wanted_item-reverse name xs (x ∷ seen))
    | inr other ↦ ground (arith, other, wanted_item-reverse name xs (x ∷ seen))
  ]

  load_pages_lem :
      (fuel : ℕ) (name : String) (item : Option String) {n : ℕ} {token : String} {w : W}
      {xs : List FgaStore} {w' : W} (old : Option Error)
      → StorePages n token w xs w'
      → n < fuel
      → load_pages fga cache fuel name token item (record { world = w; load_err = old })
        ≡ (ok (wanted_item fga cache name xs item), record { world = w'; load_err = old })
  unfolding load_pages
  load_pages_lem zero name item old p h = absurd (omega arith)
  load_pages_lem (suc fuel) name item old (last resp answer end eq left) h =
      rw (answer, (eq_iff resp.continuation_token "").1 end, eq, left)
  load_pages_lem (suc fuel) name item old (more {ys = ys} resp answer cont pages eq) h =
      rw
        (
          answer,
          not_last resp.continuation_token cont,
          eq,
          wanted_item-append name resp.stores ys item,
        )
        (load_pages_lem fuel name _ old pages (omega arith))
    where
      not_last : (token : String) → token ≢ "" → (token == "") ≡ false
      not_last token h = ground (arith, eq_iff token "")

  module _ (laws : CacheLaws cache) (fuel : ℕ) where
    open laws use {entry, hit, miss}

    load_lem :
        (name : String) (s : State W) {n : ℕ} {xs : List FgaStore} {w' : W}
        → StorePages n "" s.world xs w'
        → n < fuel
        → load fga cache fuel name s
          ≡ (ok (wanted_item fga cache name xs none), record { world = w'; load_err = s.load_err })
    unfolding load
    load_lem name s pages room = load_pages_lem fuel name none s.load_err pages room

    load-HasError :
        (name : String) (s : State W) → HasError s → HasError (load fga cache fuel name s).1
    unfolding load
    load-HasError name s h = load_pages-HasError fuel name "" none s h

    -- A live entry is answered, if no load has failed before.
    pub get_hit :
        (name id : String) (s : State W)
        → entry s.world name ≡ some id
        → s.load_err ≡ none
        → (get fga cache fuel name s).0 ≡ ok id
    unfolding get
    get_hit name id s live clean = ground (arith, hit (load fga cache fuel) name id s live, clean)

    -- Without an entry, and if no load has failed before: where the pages of OpenFGA are listed to the
    -- last one, with fuel for them, the answer is the ID of the last of the listed stores that has
    -- that name, or an error if none has it.
    pub get_miss :
        (name : String) (s : State W) {n : ℕ} {xs : List FgaStore} {w' : W}
        → entry s.world name ≡ none
        → s.load_err ≡ none
        → StorePages n "" s.world xs w'
        → n < fuel
        → (get fga cache fuel name s).0 ≡ elim (find (λ x. x.name == name) (reverse xs)) [
          | none ↦ err (fail "store not found")
          | some x ↦ ok x.id
        ]
    unfolding get
    get_miss name s {xs = xs} {w' = w'} gone clean pages room = ground (
      arith,
      miss (load fga cache fuel) name s gone,
      load_lem name s pages room,
      wanted_item-reverse name xs [],
    )

    cache_get-HasError :
        (name : String) (s : State W)
        → HasError s
        → HasError (cache.get (load fga cache fuel) name s).1
    cache_get-HasError name s h = elim (Option-cases (entry s.world name)) [
      | inl gone ↦ rw (miss (load fga cache fuel) name s gone) (load-HasError name s h)
      | inr (id, live) ↦ rw (hit (load fga cache fuel) name id s live).1 h
    ]

    get-HasError :
        (name : String) (s : State W) → HasError s → HasError (get fga cache fuel name s).1
    unfolding get
    get-HasError name s h = ground (arith, cache_get-HasError name s h)

    get-ne-ok :
        (name id : String) (s : State W) → HasError s → (get fga cache fuel name s).0 ≢ ok id
    unfolding get
    get-ne-ok name id s h = ground (arith, cache_get-HasError name s h)

    -- The answers of calls one after another.
    pub get_all : List String → State W → List (Result String)
    get_all [] s = []
    get_all (name ∷ names) s = let (r, s') = get fga cache fuel name s in r ∷ get_all names s'

    abbrev pub NoneOk : List (Result String) → Type 0
    NoneOk [] = Unit
    NoneOk (r ∷ rs) = ((id : String) → r ≢ ok id) × NoneOk rs

    -- Once a load has failed, no later call succeeds, whatever the names, live entries included.
    pub get_all-NoneOk : (names : List String) (s : State W) → HasError s → NoneOk (get_all names s)
    unfolding get_all
    get_all-NoneOk [] s h = tt
    get_all-NoneOk (name ∷ names) s h =
        (λ id. get-ne-ok name id s h, get_all-NoneOk names _ (get-HasError name s h))

    failed_load-HasError :
        (name : String) (s : State W) (e : Error)
        → (fga.list_stores (stores_request fga cache "") s.world).0 ≡ err e
        → 0 < fuel
        → HasError (load fga cache fuel name s).1
    unfolding load
    failed_load-HasError name s e fails room = first fuel room
      where
        first : (n : ℕ) → 0 < n → HasError (load_pages fga cache n name "" none s).1
        first zero room = absurd (omega arith)
        first (suc n) room = unfold load_pages in rw fails refl

    -- If a name has no entry and listing the stores fails, then no later call succeeds, whatever the
    -- names, live entries included.
    pub failed_load-NoneOk :
        (name : String) (s : State W) (e : Error) (names : List String)
        → entry s.world name ≡ none
        → (fga.list_stores (stores_request fga cache "") s.world).0 ≡ err e
        → 0 < fuel
        → NoneOk (get_all names (get fga cache fuel name s).1)
    unfolding get
    failed_load-NoneOk name s e names gone fails room = get_all-NoneOk names _ (
        ground
          (arith, miss (load fga cache fuel) name s gone, failed_load-HasError name s e fails room))
