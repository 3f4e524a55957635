-- ===== src/Fga/Manager/Listing.antt =====
-- Listing follows the continuation tokens to the last page and returns what all pages held.
use mathlib.Core.List.{append_assoc}
use security_operator.Prelude.{
  ℕ, suc, zero, ◌<◌, String, Bool, List, [], ◌∷◌, ◌++◌, Option, some, none, ◌≡◌, ◌≢◌, refl, sym, ap,
  ok, err, Error, filter, filter-append, ◌==◌, eq_iff, arith, true, false, ◌∙◌, ◌&&◌,
}
use security_operator.Api.{Tuple, contains_tuple}
use security_operator.Fga.Service.{OpenFga, ReadKey, ReadResponse, WriteLaws}
use security_operator.Fga.Manager.{
  TupleManager, keys, page_request, read_pages, list_with_filter, list_with_key,
}

module _ {W : Type 0} (fga : OpenFga W) (m : TupleManager) (key : Option ReadKey) where
  -- From a token, `n + 1` pages follow that hold these tuples in all, and leave the world so.
  pub data Pages : ℕ → String → W → List Tuple → W → Type 0 where
    last :
        {token : String} {w : W} {ts : List Tuple} {w' : W} (resp : ReadResponse)
        → fga.read (page_request fga m key token) w ≡ (ok resp, w')
        → resp.continuation_token ≡ ""
        → ts ≡ keys resp.tuples
        → Pages zero token w ts w'
    more :
        {n : ℕ} {token : String} {w w' : W} {ts us : List Tuple} {w'' : W} (resp : ReadResponse)
        → fga.read (page_request fga m key token) w ≡ (ok resp, w'')
        → resp.continuation_token ≢ ""
        → Pages n resp.continuation_token w'' us w'
        → ts ≡ keys resp.tuples ++ us
        → Pages (suc n) token w ts w'

  -- The pages so far answer, and the next one is an error.
  pub data Breaks : ℕ → String → W → Error → W → Type 0 where
    now :
        {token : String} {w : W} {e : Error} {w' : W}
        → fga.read (page_request fga m key token) w ≡ (err e, w')
        → Breaks zero token w e w'
    later :
        {n : ℕ} {token : String} {w w' : W} {e : Error} {w'' : W} (resp : ReadResponse)
        → fga.read (page_request fga m key token) w ≡ (ok resp, w'')
        → resp.continuation_token ≢ ""
        → Breaks n resp.continuation_token w'' e w'
        → Breaks (suc n) token w e w'

  not_last : (token : String) → token ≢ "" → (token == "") ≡ false
  not_last token h = ground (arith, eq_iff token "")

  is_last : (token : String) → token ≡ "" → (token == "") ≡ true
  is_last token h = ground (arith, eq_iff token "")

  pub read_pages_lem :
      (keep : Tuple → Bool) (fuel : ℕ) (result : List Tuple) {n : ℕ} {token : String} {w : W}
      {ts : List Tuple} {w' : W}
      → Pages n token w ts w'
      → n < fuel
      → read_pages fga fuel m key keep token result w
        ≡ (ok (result ++ filter keep ts), fga.count "list" "success" w')
  unfolding read_pages
  read_pages_lem keep zero result p h = absurd (omega arith)
  read_pages_lem keep (suc fuel) result (last resp answer end eq) h =
      rw (answer, is_last resp.continuation_token end, eq)
  read_pages_lem keep (suc fuel) result {w' = w'} (more {us = us} resp answer cont pages eq) h =
      rw (answer, not_last resp.continuation_token cont, eq)
        (read_pages_lem keep fuel _ pages (omega arith)
          ∙ ap (λ ts. (ok ts, fga.count "list" "success" w'))
              (append_assoc result _ _
                ∙ sym (ap (λ us. result ++ us) (filter-append keep (keys resp.tuples) us))))

  pub read_pages-Breaks :
      (keep : Tuple → Bool) (fuel : ℕ) (result : List Tuple) {n : ℕ} {token : String} {w : W}
      {e : Error} {w' : W}
      → Breaks n token w e w'
      → n < fuel
      → read_pages fga fuel m key keep token result w ≡ (err e, fga.count "list" "error" w')
  unfolding read_pages
  read_pages-Breaks keep zero result p h = absurd (omega arith)
  read_pages-Breaks keep (suc fuel) result (now answer) h = rw answer
  read_pages-Breaks keep (suc fuel) result (later resp answer cont pages) h =
      rw (answer, not_last resp.continuation_token cont)
        (read_pages-Breaks keep fuel _ pages (omega arith))

-- Where the service answers page after page and the last page has no token, the list is of the
-- tuples of all pages that the filter takes, in their order, with fuel for one call a page.
pub list_with_filter-Pages :
    {W : Type 0} (fga : OpenFga W) (m : TupleManager) (keep : Tuple → Bool) {n : ℕ} {w w' : W}
    {ts : List Tuple} (fuel : ℕ)
    → Pages fga m none n "" w ts w'
    → n < fuel
    → list_with_filter fga fuel m (some keep) w
      ≡ (ok (filter keep ts), fga.count "list" "success" w')
unfolding list_with_filter
list_with_filter-Pages fga m keep fuel p h = read_pages_lem fga m none keep fuel [] p h

filter_all : (ts : List Tuple) → filter (λ _. true) ts ≡ ts
filter_all [] = refl
filter_all (t ∷ ts) = ap (λ us. t ∷ us) (filter_all ts)

-- With a key the list is of the tuples of all pages.
pub list_with_key-Pages :
    {W : Type 0} (fga : OpenFga W) (m : TupleManager) (key : ReadKey) {n : ℕ} {w w' : W}
    {ts : List Tuple} (fuel : ℕ)
    → Pages fga m (some key) n "" w ts w'
    → n < fuel
    → list_with_key fga fuel m key w ≡ (ok ts, fga.count "list" "success" w')
unfolding list_with_key
list_with_key-Pages fga m key fuel p h =
    rw (read_pages_lem fga m (some key) (λ _. true) fuel [] p h, filter_all)

-- Where a page is an error after others that were answered, the list is that error, and what the
-- other pages held is dropped.
pub list_with_key-Breaks :
    {W : Type 0} (fga : OpenFga W) (m : TupleManager) (key : ReadKey) {n : ℕ} {w w' : W} {e : Error}
    (fuel : ℕ)
    → Breaks fga m (some key) n "" w e w'
    → n < fuel
    → list_with_key fga fuel m key w ≡ (err e, fga.count "list" "error" w')
unfolding list_with_key
list_with_key-Breaks fga m key fuel p h = read_pages-Breaks fga m (some key) (λ _. true) fuel [] p h

abbrev pub object_key : String → ReadKey
object_key object = record { object = object; relation = ""; user = "" }

-- What is documented of `Read` with the object as the key: the pages hold the tuples of the store
-- with that object, and reading changes none. `fuel` is more than the pages of any answer.
pub record ReadLaws {W : Type 0} (fga : OpenFga W) (laws : WriteLaws fga) (fuel : ℕ) : Type 0 where
  pub count_of : W → String → String → ℕ
  pub found : W → String → String → List Tuple
  pub left : W → String → String → W
  pub pages :
      (m : TupleManager) (object : String) (w : W)
      → Pages fga m
          (some (object_key object))
          (count_of w m.store_id object)
          ""
          w
          (found w m.store_id object)
          (left w m.store_id object)
  pub room : (w : W) (store object : String) → count_of w store object < fuel
  pub exact :
      (w : W) (store object : String) (t : Tuple)
      → contains_tuple t (found w store object) ≡ (t.object == object && laws.holds w store t)
  pub quiet :
      (w : W) (store object s : String) (t : Tuple)
      → laws.holds (left w store object) s t ≡ laws.holds w s t
