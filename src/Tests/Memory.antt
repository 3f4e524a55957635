-- ===== src/Tests/Memory.antt =====
-- An OpenFGA service in memory: it keeps its tuples in a list and answers each read in one page.
use security_operator.Prelude.{
  String, Bool, List, [], ◌∷◌, Option, none, some, Result, Exec, fail, ok, err, pure, raise, ◌≡◌,
  ◌≢◌, refl, arith, ◌==◌, ◌&&◌, ◌||◌, not, if◌then◌else◌, any, filter, eq_iff, Bool-cases, inl, inr,
  true,
}
use security_operator.Api.{Tuple, tuple_eq, tuple_eq_iff, contains_tuple}
use security_operator.Fga.Service.{
  OpenFga, Writes, Deletes, WriteRequest, ReadKey, ReadRequest, ReadResponse, WriteLaws,
}
use security_operator.Fga.Manager.{keys}
use security_operator.Fga.Manager.Listing.{last, ReadLaws, object_key}

pub record Memory : Type 0 where
  pub facts : List (String × Tuple)
  pub counts : List (String × String)

abbrev is_fact : String → Tuple → String × Tuple → Bool
is_fact s t f = s == f.0 && tuple_eq t f.1

abbrev pub has : Memory → String → Tuple → Bool
has w s t = any (is_fact s t) w.facts

abbrev put_all : String → List Tuple → List (String × Tuple) → List (String × Tuple)
put_all s [] fs = fs
put_all s (t ∷ ts) fs = (s, t) ∷ put_all s ts fs

abbrev drop_all : String → List Tuple → List (String × Tuple) → List (String × Tuple)
drop_all s ts fs = filter (λ f. not (s == f.0 && contains_tuple f.1 ts)) fs

abbrev put_writes : String → Option Writes → List (String × Tuple) → List (String × Tuple)
put_writes s none fs = fs
put_writes s (some x) fs = put_all s x.tuple_keys fs

abbrev drop_deletes : String → Option Deletes → List (String × Tuple) → List (String × Tuple)
drop_deletes s none fs = fs
drop_deletes s (some x) fs = drop_all s x.tuple_keys fs

abbrev write : WriteRequest → Exec Memory (Unit {0})
write req w = (
  ok tt,
  record w {
    facts = put_writes req.store_id req.writes (drop_deletes req.store_id req.deletes w.facts);
  },
)

abbrev matches : Option ReadKey → Tuple → Bool
matches none t = true
matches (some k) t = t.object == k.object

abbrev tuples_of : String → Option ReadKey → List (String × Tuple) → List (Option Tuple)
tuples_of s k [] = []
tuples_of s k (f ∷ fs) =
    if s == f.0 && matches k f.1 then some f.1 ∷ tuples_of s k fs else tuples_of s k fs

abbrev read : ReadRequest → Exec Memory ReadResponse
read req w = (
  ok (record { tuples = tuples_of req.store_id req.tuple_key w.facts; continuation_token = "" }),
  w,
)

abbrev pub memory : OpenFga Memory
memory = record {
  write = write;
  read = read;
  list_stores = λ req. pure (record { stores = []; continuation_token = "" });
  create_store = λ name. raise (fail "no stores");
  get_store = λ id. raise (fail "no stores");
  update_store = λ id name. raise (fail "no stores");
  delete_store = λ id. raise (fail "no stores");
  count = λ operation result w. record w { counts = (operation, result) ∷ w.counts };
}

pub any-put_all :
    (s s' : String) (t : Tuple) (ts : List Tuple) (fs : List (String × Tuple))
    → any (is_fact s' t) (put_all s ts fs)
      ≡ (if s' == s then contains_tuple t ts || any (is_fact s' t) fs else any (is_fact s' t) fs)
any-put_all s s' t [] fs = ground arith
any-put_all s s' t (u ∷ us) fs = ground (arith, any-put_all s s' t us fs)

pub any-drop_all :
    (s s' : String) (t : Tuple) (ts : List Tuple) (fs : List (String × Tuple))
    → any (is_fact s' t) (drop_all s ts fs) ≡ (
        if s' == s
        then not (contains_tuple t ts) && any (is_fact s' t) fs
        else any (is_fact s' t) fs)
any-drop_all s s' t ts [] = ground arith
any-drop_all s s' t ts (f ∷ fs) = elim (Bool-cases (is_fact s' t f)) [
  | inl same ↦ ground (
    arith,
    any-drop_all s s' t ts fs,
    tuple_eq_iff t f.1,
    eq_iff s' f.0,
    eq_iff s' s,
    eq_iff s f.0,
  )
  | inr other ↦ ground (arith, any-drop_all s s' t ts fs)
]

abbrev pub memory_laws : WriteLaws memory
memory_laws = record {
  holds = has;
  written = λ store model ts w s t done. any-put_all store s t ts w.facts;
  deleted = λ store model ts w s t done. any-drop_all store s t ts w.facts;
  refused = λ req w s t fails. absurd (fails refl);
  counted = λ operation result w s t. refl;
}

keys-tuples_of :
    (s object : String) (t : Tuple) (fs : List (String × Tuple))
    → contains_tuple t (keys (tuples_of s (some (object_key object)) fs))
      ≡ (t.object == object && any (is_fact s t) fs)
keys-tuples_of s object t [] = ground arith
keys-tuples_of s object t (f ∷ fs) = elim (Bool-cases (tuple_eq t f.1)) [
  | inl same ↦ ground (arith, keys-tuples_of s object t fs, tuple_eq_iff t f.1)
  | inr other ↦ ground (arith, keys-tuples_of s object t fs)
]

pub memory_reads : ReadLaws memory memory_laws 1
memory_reads = record {
  count_of = λ w store object. 0;
  found = λ w store object. keys (tuples_of store (some (object_key object)) w.facts);
  left = λ w store object. w;
  pages = λ m object w. last _ refl refl refl;
  room = λ w store object. omega arith;
  exact = λ w store object t. keys-tuples_of store object t w.facts;
  quiet = λ w store object s t. refl;
}

-- The same service, where every deletion fails.
abbrev flaky_write : WriteRequest → Exec Memory (Unit {0})
flaky_write req w = elim req.deletes [ none ↦ write req w | some x ↦ (err (fail "unavailable"), w) ]

abbrev pub flaky : OpenFga Memory
flaky = record memory { write = flaky_write }

pub flaky-refused :
    (req : WriteRequest) (w : Memory) (s : String) (t : Tuple)
    → (flaky_write req w).0 ≢ ok tt
    → has (flaky_write req w).1 s t ≡ has w s t
flaky-refused req w s t fails = ground arith

pub flaky-deleted :
    (store : String) (ts : List Tuple) (w : Memory) (s : String) (t : Tuple)
    → ◌≡◌ {A = Result (Unit {0})} (err (fail "unavailable")) (ok tt)
    → has w s t ≡ (if s == store then not (contains_tuple t ts) && has w s t else has w s t)
flaky-deleted store ts w s t done = cc

abbrev pub flaky_laws : WriteLaws flaky
flaky_laws = record {
  holds = has;
  written = λ store model ts w s t done. any-put_all store s t ts w.facts;
  deleted = λ store model ts w s t done. flaky-deleted store ts w s t done;
  refused = flaky-refused;
  counted = λ operation result w s t. refl;
}
