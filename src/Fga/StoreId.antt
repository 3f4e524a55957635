-- ===== src/Fga/StoreId.antt =====
-- internal/fga/storeid_getter.go: store IDs by name, from a cache that loads all stores on a miss.
pub mod Laws
use security_operator.Prelude.{
  ℕ, zero, suc, String, List, [], ◌∷◌, Option, none, some, Exec, Error, Result, wrap, ok, err,
  crash, fail, pure, raise, panic, ◌>>=◌, ◌>>◌, ◌==◌, ◌≡◌, if◌then◌else◌,
}
use security_operator.Fga.Service.{OpenFga, FgaStore, ListStoresRequest, ListStoresResponse}

-- The getter's own state is the loader's last error; the rest of the world, the entries of the
-- cache and the time included, is `W`.
pub record State (W : Type 0) : Type 0 where
  pub world : W
  pub load_err : Option Error

-- github.com/jellydator/ttlcache, as a parameter: `Get` with a loader, and `Set`.
pub record Cache (W : Type 0) : Type 0 where
  pub get : (String → Exec (State W) (Option String)) → String → Exec (State W) (Option String)
  pub set : String → String → W → W

-- What is documented of `Get`: a name with a live entry is answered from it, without a call of the
-- loader, which alone sets the error; the world may change, since a hit extends the life of the
-- entry. The loader is called for any other name.
pub record CacheLaws {W : Type 0} (cache : Cache W) : Type 0 where
  pub entry : W → String → Option String
  pub hit :
      (load : String → Exec (State W) (Option String)) (name id : String) (s : State W)
      → entry s.world name ≡ some id
      → ((cache.get load name s).0 ≡ ok (some id))
        × ((cache.get load name s).1.load_err ≡ s.load_err)
  pub miss :
      (load : String → Exec (State W) (Option String)) (name : String) (s : State W)
      → entry s.world name ≡ none
      → cache.get load name s ≡ load name s

module _ {W : Type 0} (fga : OpenFga W) (cache : Cache W) where
  -- The inner loop: each store goes into the cache, and the last of the wanted name is kept.
  abbrev pub set_all : List FgaStore → W → W
  set_all [] w = w
  set_all (x ∷ xs) w = set_all xs (cache.set x.name x.id w)

  abbrev pub wanted_item : String → List FgaStore → Option String → Option String
  wanted_item name [] item = item
  wanted_item name (x ∷ xs) item = wanted_item name xs (if x.name == name then some x.id else item)

  abbrev pub stores_request : String → ListStoresRequest
  stores_request token = record { page_size = some 100; continuation_token = token }

  abbrev loaded :
      (String → Option String → Exec (State W) (Option String))
      → String
      → Option String
      → Option Error
      → Result ListStoresResponse
      → W
      → Result (Option String) × State W
  loaded rest name item old (ok resp) w =
      let item' = wanted_item name resp.stores item in
      let s : State W = record { world = set_all resp.stores w; load_err = old } in
      let more = rest resp.continuation_token item' s in
      if resp.continuation_token == "" then (ok item', s) else more
  loaded rest name item old (err e) w =
      (ok none, record { world = w; load_err = some (wrap "listing Stores in OpenFGA" e) })
  loaded rest name item old (crash msg) w = (crash msg, record { world = w; load_err = old })

  -- The loop over the pages, with fuel.
  unfoldable pub load_pages : ℕ → String → String → Option String → Exec (State W) (Option String)
  load_pages zero name token item s = (crash "no fuel left", s)
  load_pages (suc fuel) name token item s =
      let answer = fga.list_stores (stores_request token) s.world in
      loaded (load_pages fuel name) name item s.load_err answer.0 answer.1

  unfoldable pub load : ℕ → String → Exec (State W) (Option String)
  load fuel name = load_pages fuel name "" none

  abbrev load_error : Exec (State W) (Unit {0})
  load_error s = elim s.load_err [
    | none ↦ (ok tt, s)
    | some e ↦ (err (wrap "populating cache" e), s)
  ]

  abbrev item_value : Option String → Exec (State W) String
  item_value none = raise (fail "store not found")
  item_value (some id) = pure id

  unfoldable pub get : ℕ → String → Exec (State W) String
  get fuel name = do item ← cache.get (load fuel) name; load_error; item_value item
