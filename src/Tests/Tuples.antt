-- ===== src/Tests/Tuples.antt =====
-- internal/subroutine/tuples.go over the service in memory.
use security_operator.Prelude.{
  String, [], ◌∷◌, fail, ok, raise, ◌≡◌, refl, ◌⊎◌, true, false, ◌||◌, ◌&&◌, not, if◌then◌else◌,
  ◌==◌, arith,
}
use security_operator.Api.{Tuple, tuple_eq, Store, contains_tuple}
use security_operator.Kube.{Manager}
use security_operator.Fga.Manager.{TupleManager, apply, delete}
use security_operator.Subroutine.Tuples.{Object, store, set_managed_tuples, process, finalize}
use security_operator.Subroutine.Tuples.Laws.{process_lem, process_failed, finalize_lem}
use security_operator.Subroutine.Tuples.Life.{
  Reach, edit, succeed, here, next, Reach-IsHeld, IsHeld,
}
use security_operator.Tests.Memory.{Memory, memory, memory_laws, flaky, flaky_laws}

tuple_subroutine : Unit {0}
unfolding process finalize apply delete tuple_eq
tuple_subroutine = tt

abbrev unreachable : Manager Memory
unreachable = record {
  get_cluster = λ name. raise (fail "no cluster");
  cluster_from_context = raise (fail "no cluster");
}

abbrev assignee : String → Tuple
assignee user = record { object = "role:x"; relation = "assignee"; user = user }

abbrev wanted : Store
wanted = record {
  name = "acme";
  spec = record { core_module = ""; tuples = assignee "user:new" ∷ [] };
  status = record {
    store_id = "s1";
    authorization_model_id = "";
    managed_tuples = assignee "user:old" ∷ [];
  };
}

abbrev manager : TupleManager
manager = record { store_id = "s1"; authorization_model_id = "" }

abbrev before : Memory
before = record {
  facts = ("s1", assignee "user:old") ∷ ("s1", assignee "user:other") ∷ [];
  counts = [];
}

abbrev done : Object
done = set_managed_tuples (assignee "user:new" ∷ []) (store wanted)

processed :
    ((process memory unreachable (store wanted) before).0 ≡ ok done)
    × (memory_laws.holds
          (process memory unreachable (store wanted) before).1
          "s1"
          (assignee "user:old")
        ≡ false)
    × (memory_laws.holds
          (process memory unreachable (store wanted) before).1
          "s1"
          (assignee "user:other")
        ≡ true)
unfolding tuple_subroutine
processed = (refl, refl, refl)

process_lem_example :
    (done ≡ set_managed_tuples (assignee "user:new" ∷ []) (store wanted))
    × ((s : String) (t : Tuple)
        → memory_laws.holds (process memory unreachable (store wanted) before).1 s t ≡ (
            if s == "s1"
            then contains_tuple t (assignee "user:new" ∷ [])
              || (memory_laws.holds before s t && not (contains_tuple t (assignee "user:old" ∷ [])))
            else memory_laws.holds before s t))
unfolding tuple_subroutine
process_lem_example =
    process_lem memory unreachable memory_laws (store wanted) done manager before (λ w s t. refl)
      refl refl

finalize_lem_example :
    (set_managed_tuples [] (store wanted) ≡ set_managed_tuples [] (store wanted))
    × ((s : String) (t : Tuple)
        → memory_laws.holds (finalize memory unreachable (store wanted) before).1 s t ≡ (
            if s == "s1"
            then not (contains_tuple t (assignee "user:old" ∷ [])) && memory_laws.holds before s t
            else memory_laws.holds before s t))
unfolding tuple_subroutine
finalize_lem_example =
    finalize_lem memory unreachable memory_laws (store wanted)
      (set_managed_tuples [] (store wanted)) manager before (λ w s t. refl) refl refl

-- The tuple of the spec was written, the old one could not be deleted, and the status is as it was.
process_failed_example :
    ((s : String) (t : Tuple)
      → flaky_laws.holds (process flaky unreachable (store wanted) before).1 s t
        ≡ flaky_laws.holds before s t)
    ⊎ ((s : String) (t : Tuple)
        → flaky_laws.holds (process flaky unreachable (store wanted) before).1 s t ≡ (
            if s == "s1"
            then contains_tuple t (assignee "user:new" ∷ []) || flaky_laws.holds before s t
            else flaky_laws.holds before s t))
unfolding tuple_subroutine
process_failed_example =
    process_failed flaky unreachable flaky_laws (store wanted) manager before (λ w s t. refl) refl
      (λ o' e. cc)

abbrev finished : Store
finished = record wanted {
  status = record (wanted.status) { managed_tuples = assignee "user:new" ∷ [] };
}

life :
    Reach memory unreachable wanted before
      (record finished { spec = record { core_module = "m"; tuples = [] } })
      (process memory unreachable (store wanted) before).1
unfolding tuple_subroutine
life =
    next (next here (succeed wanted before refl refl))
      (edit finished _ (record { core_module = "m"; tuples = [] }))

managed-IsHeld : IsHeld memory unreachable memory_laws wanted before
unfolding tuple_eq
managed-IsHeld t listed = ground arith

new_listed : contains_tuple (assignee "user:new") (assignee "user:new" ∷ []) ≡ true
unfolding tuple_eq
new_listed = refl

Reach-IsHeld_example :
    memory_laws.holds
      (process memory unreachable (store wanted) before).1
      "s1"
      (assignee "user:new")
    ≡ true
Reach-IsHeld_example =
    Reach-IsHeld memory unreachable memory_laws life managed-IsHeld (assignee "user:new") new_listed
