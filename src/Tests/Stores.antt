-- ===== src/Tests/Stores.antt =====
-- internal/subroutine/store.go at concrete inputs.
use security_operator.Prelude.{
  String, [], ◌∷◌, Option, none, some, Result, fail, ok, err, pure, raise, ◌≡◌, ◌≢◌, refl, ◌==◌,
  if◌then◌else◌, arith, eq_iff,
}
use security_operator.Api.{Store, AuthorizationModel}
use security_operator.Kube.{Lister}
use security_operator.Fga.Service.{OpenFga}
use security_operator.Subroutine.Store.{process, finalize, is_related, set_store_id}
use security_operator.Subroutine.Store.Laws.{
  StoreLaws, name-process, process_duplicates, finalize_guard,
}

-- A service whose store "s1" is on the second page, and that can make one more store, "s2": the
-- world is the name of that one.
abbrev make : String → Option String → Result String × Option String
make name none = (ok "s2", some name)
make name (some other) = (err (fail "no more"), some other)

abbrev name_of : Option String → String → Option String
name_of w id = if id == "s1" then some "acme" else if id == "s2" then w else none

abbrev service : OpenFga (Option String)
service = record {
  write = λ req. raise (fail "no tuples");
  read = λ req. raise (fail "no tuples");
  list_stores = λ req w. (ok (record { stores = []; continuation_token = "p2" }), w);
  create_store = make;
  get_store = λ id. raise (fail "no answer");
  update_store = λ id name. raise (fail "no answer");
  delete_store = λ id. pure tt;
  count = λ operation result w. w;
}

literals : ◌≢◌ {A = String} "s2" "s1"
literals = ground (arith, eq_iff "s2" "s1")

made :
    (name id : String) (w : Option String)
    → (make name w).0 ≡ ok id
    → name_of (make name w).1 id ≡ some name
made name id w done = ground (arith, eq_iff id "s1", eq_iff id "s2", literals)

new : (name id : String) (w : Option String) → (make name w).0 ≡ ok id → name_of w id ≡ none
new name id w done = ground (arith, eq_iff id "s1", eq_iff id "s2", literals)

same :
    (name id other : String) (w : Option String)
    → (make name w).0 ≡ ok id
    → other ≢ id
    → name_of (make name w).1 other ≡ name_of w other
same name id other w done ne = ground (arith, eq_iff other "s1", eq_iff other "s2")

service_laws : StoreLaws service
service_laws = record {
  name_of = name_of;
  listed = λ req resp w p x answer found. ground (arith, answer, found);
  created = made;
  fresh = new;
  kept = same;
  answered = λ id x w answer. cc;
  updated = λ id name w answer. cc;
}

abbrev unset : Store
unset = record {
  name = "acme";
  spec = record { core_module = ""; tuples = [] };
  status = record { store_id = ""; authorization_model_id = ""; managed_tuples = [] };
}

created_second : process service unset none ≡ (ok (set_store_id "s2" unset), some "acme")
unfolding process
created_second = refl

name-process_example : service_laws.name_of (process service unset none).1 "s2" ≡ some "acme"
unfolding process
name-process_example = name-process service service_laws unset (set_store_id "s2" unset) none refl

process_duplicates_example :
    (◌≢◌ {A = String} "s2" "s1")
    × (service_laws.name_of (process service unset none).1 "s2" ≡ some "acme")
    × (service_laws.name_of (process service unset none).1 "s1" ≡ some "acme")
unfolding process service_laws
process_duplicates_example =
    process_duplicates service service_laws unset (set_store_id "s2" unset)
      (record { stores = []; continuation_token = "p2" }) none "s1" refl refl refl refl refl

abbrev depending : AuthorizationModel
depending = record {
  name = "m";
  spec = record { store_ref = record { name = "acme"; cluster = "orgs" }; model = ""; tuples = [] };
  managed_tuples = [];
}

abbrev lister : Lister (Option String)
lister = record { list_authorization_models = pure (depending ∷ []); list_account_infos = pure [] }

finalize_guard_example :
    finalize service 5 (some "orgs") lister (set_store_id "s1" unset) none
    ≡ (err (fail "found non-zero count of depending authorization models"), none)
unfolding is_related
finalize_guard_example =
    finalize_guard service 5 "orgs" lister (set_store_id "s1" unset) (depending ∷ []) none
      (λ e. cc e) refl refl
