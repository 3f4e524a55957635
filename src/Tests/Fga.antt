-- ===== src/Tests/Fga.antt =====
-- internal/fga at concrete inputs.
use security_operator.Prelude.{
  String, List, [], ◌∷◌, Option, none, some, Result, Exec, fail, ok, err, pure, raise, ◌≡◌, ◌≢◌,
  refl, arith, ◌==◌, true, false, if◌then◌else◌,
}
use security_operator.Api.{Tuple, tuple_eq}
use security_operator.Fga.Service.{
  OpenFga, ListStoresRequest, ListStoresResponse, ReadResponse, ReadRequest,
}
use security_operator.Fga.Tuples.{
  render_account_entity, render_creator_user, format_user, is_tuple_of_account_filter,
}
use security_operator.Prelude.Text.{replace_all, contains}
use security_operator.Fga.Manager.{TupleManager, apply, delete, list_with_filter, list_with_key}
use security_operator.Fga.Manager.Laws.{holds-apply, holds-delete}
use security_operator.Fga.Manager.Listing.{
  last, more, now, later, object_key, list_with_filter-Pages, list_with_key-Breaks,
}
use security_operator.Fga.StoreId.{State, Cache, CacheLaws, get, load}
use security_operator.Fga.StoreId.Laws.{failed_load-NoneOk, get_miss, StorePages, NoneOk, get_all}
use security_operator.Tests.Memory.{memory, memory_laws, Memory}

abbrev alice : Tuple
alice = record { object = "role:acc/c1/a/owner"; relation = "assignee"; user = "user:alice" }

abbrev bob : Tuple
bob = record { object = "role:acc/c1/a/owner"; relation = "assignee"; user = "user:bob" }

rendered :
    (render_account_entity "acc" "c1" "a" ≡ "acc:c1/a")
    × (render_creator_user "system:sa:x" ≡ "user:system.sa.x")
unfolding render_account_entity render_creator_user format_user replace_all
rendered = (refl, refl)

filtered :
    (is_tuple_of_account_filter "c1" alice ≡ true) × (is_tuple_of_account_filter "" alice ≡ false)
unfolding is_tuple_of_account_filter contains
filtered = (refl, refl)

-- A service of two pages.
abbrev two_pages : ReadRequest → Exec (List String) ReadResponse
two_pages req w =
    if req.continuation_token == ""
    then (ok (record { tuples = some alice ∷ none ∷ []; continuation_token = "p2" }), w)
    else (ok (record { tuples = some bob ∷ []; continuation_token = "" }), w)

abbrev paged : OpenFga (List String)
paged = record {
  write = λ req w. (ok tt, w);
  read = two_pages;
  list_stores = λ req. pure (record { stores = []; continuation_token = "" });
  create_store = λ name. raise (fail "no stores");
  get_store = λ id. raise (fail "no stores");
  update_store = λ id name. raise (fail "no stores");
  delete_store = λ id. raise (fail "no stores");
  count = λ operation result w. result ∷ w;
}

abbrev manager : TupleManager
manager = record { store_id = "s1"; authorization_model_id = "" }

p2-ne-nil : ◌≢◌ {A = String} "p2" ""
p2-ne-nil e = cc e

list_with_filter-Pages_example :
    list_with_filter paged 2 manager (some (λ t. t.user == "user:bob")) []
    ≡ (ok (bob ∷ []), "success" ∷ [])
list_with_filter-Pages_example =
    list_with_filter-Pages paged manager (λ t. t.user == "user:bob") {n = 1} {w = []} {w' = []}
      {ts = alice ∷ bob ∷ []} 2
      (more (record { tuples = some alice ∷ none ∷ []; continuation_token = "p2" }) refl p2-ne-nil
        (last _ refl refl refl) refl)
      (omega arith)

-- A service whose second page fails.
abbrev broken : ReadRequest → Exec (List String) ReadResponse
broken req w =
    if req.continuation_token == ""
    then (ok (record { tuples = some alice ∷ []; continuation_token = "p2" }), w)
    else (err (fail "unavailable"), w)

abbrev breaking : OpenFga (List String)
breaking = record paged { read = broken }

list_with_key-Breaks_example :
    list_with_key breaking 2 manager (object_key "role:acc/c1/a/owner") []
    ≡ (err (fail "unavailable"), "error" ∷ [])
list_with_key-Breaks_example =
    list_with_key-Breaks breaking manager (object_key "role:acc/c1/a/owner") {n = 1} {w = []}
      {w' = []} {e = fail "unavailable"} 2
      (later (record { tuples = some alice ∷ []; continuation_token = "p2" }) refl p2-ne-nil
        (now refl))
      (omega arith)

abbrev start : Memory
start = record { facts = ("s1", bob) ∷ []; counts = [] }

holds-apply_example :
    memory_laws.holds (apply memory manager (alice ∷ []) start).1 "s1" alice ≡ true
unfolding apply tuple_eq
holds-apply_example = holds-apply memory memory_laws manager (alice ∷ []) start "s1" alice refl

holds-delete_example : memory_laws.holds (delete memory manager (bob ∷ []) start).1 "s1" bob ≡ false
unfolding delete tuple_eq
holds-delete_example = holds-delete memory memory_laws manager (bob ∷ []) start "s1" bob refl

-- The world of the cache: its entries, and whether OpenFGA answers.
abbrev Entries : Type 0
Entries = List (String × String)

abbrev entry_of : Entries → String → Option String
entry_of [] name = none
entry_of ((k, v) ∷ es) name = if k == name then some v else entry_of es name

abbrev hit_or_load :
    (String → Exec (State Entries) (Option String))
    → String
    → State Entries
    → Option String
    → Result (Option String) × State Entries
hit_or_load load name s none = load name s
hit_or_load load name s (some id) = (ok (some id), s)

abbrev cache : Cache Entries
cache = record {
  get = λ load name s. hit_or_load load name s (entry_of s.world name);
  set = λ name id w. (name, id) ∷ w;
}

abbrev cache_laws : CacheLaws cache
cache_laws = record {
  entry = entry_of;
  hit = λ load name id s live. (rw live refl, rw live refl);
  miss = λ load name s gone. rw gone;
}

abbrev listing : (ListStoresRequest → Exec Entries ListStoresResponse) → OpenFga Entries
listing f = record {
  write = λ req w. (ok tt, w);
  read = λ req. raise (fail "no tuples");
  list_stores = f;
  create_store = λ name. raise (fail "no stores");
  get_store = λ id. raise (fail "no stores");
  update_store = λ id name. raise (fail "no stores");
  delete_store = λ id. raise (fail "no stores");
  count = λ operation result w. w;
}

abbrev silent : OpenFga Entries
silent = listing (λ req. raise (fail "unavailable"))

-- "acme" has a live entry and is refused, since loading "other" failed.
failed_load-NoneOk_example : NoneOk silent cache cache_laws 3 (
    get_all silent cache cache_laws 3
      ("acme" ∷ [])
      (get silent cache 3 "other" (record { world = ("acme", "id1") ∷ []; load_err = none })).1)
failed_load-NoneOk_example =
    failed_load-NoneOk silent cache cache_laws 3 "other"
      (record { world = ("acme", "id1") ∷ []; load_err = none }) (fail "unavailable") ("acme" ∷ [])
      refl refl (omega arith)

abbrev two_stores : OpenFga Entries
two_stores = listing (λ req. pure (record {
  stores = record { id = "id1"; name = "acme" } ∷ record { id = "id2"; name = "acme" } ∷ [];
  continuation_token = "";
}))

get_miss_example :
    (get two_stores cache 3 "acme" (record { world = []; load_err = none })).0 ≡ ok "id2"
get_miss_example =
    get_miss two_stores cache cache_laws 3 "acme" (record { world = []; load_err = none }) {n = 0}
      {xs = record { id = "id1"; name = "acme" } ∷ record { id = "id2"; name = "acme" } ∷ []}
      {w' = ("acme", "id2") ∷ ("acme", "id1") ∷ []} refl refl
      (StorePages.last _ refl refl refl refl) (omega arith)
