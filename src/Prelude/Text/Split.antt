-- ===== src/Prelude/Text/Split.antt =====
-- Parts between separators: a separator is one character, given by its code. The parts of a split
-- hold no separator, and joining them gives the text back.
use Prim.Native.Nat.{ℕ}
use Prim.Native.Char.{Char, code}
use Prim.Native.String.{String, [], ◌∷◌, ◌++◌}
use mathlib.Core.Path.{◌≡◌, refl, sym, ap, ap₂, ◌∙◌}
use mathlib.Core.Logic.{◌≢◌}
use mathlib.Core.Bool.{true, false}
use mathlib.Core.List.{List}
use native.Mathlib.Omega.{arith}
use native.Mathlib.Decide.{ℕ_discrete}
use text.Mathlib.TextEquality.{Char-path}
use text.Mathlib.TextLemmas.{nil-append, cons-append}
use security_operator.Prelude.Lists.{if◌then◌else◌, nat_eq}

-- strings.ReplaceAll of one character by another
unfoldable pub replace_all : String → ℕ → Char → String
replace_all [] a b = []
replace_all (c ∷ s) a b = (if nat_eq (code c) a then b else c) ∷ replace_all s a b

abbrev pub cons_head : Char → List String → List String
cons_head c List.[] = List.◌∷◌ (c ∷ []) List.[]
cons_head c (List.◌∷◌ p ps) = List.◌∷◌ (c ∷ p) ps

-- strings.Split
unfoldable pub split : String → ℕ → List String
split [] a = List.◌∷◌ [] List.[]
split (c ∷ s) a =
    let rest = split s a in if nat_eq (code c) a then List.◌∷◌ [] rest else cons_head c rest

-- strings.Join with a separator of one character
unfoldable pub join : List String → Char → String
join List.[] a = []
join (List.◌∷◌ p List.[]) a = p
join (List.◌∷◌ p (List.◌∷◌ q ps)) a = p ++ (a ∷ join (List.◌∷◌ q ps) a)

-- The text has no character of that code.
abbrev pub Lacks : ℕ → String → Type 0
Lacks a [] = Unit
Lacks a (c ∷ s) = (code c ≢ a) × Lacks a s

pub same_code : (c : Char) {a : ℕ} → code c ≡ a → nat_eq (code c) a ≡ true
same_code c h = ground arith

pub other_code : (c : Char) {a : ℕ} → code c ≢ a → nat_eq (code c) a ≡ false
other_code c h = ground arith

cons_head-ne-nil : (c : Char) (ps : List String) → cons_head c ps ≢ List.[]
cons_head-ne-nil c List.[] h = cc
cons_head-ne-nil c (List.◌∷◌ p ps) h = cc

pub replace_all-Lacks : (s : String) (a : ℕ) (b : Char) → code b ≢ a → Lacks a (replace_all s a b)
unfolding replace_all
replace_all-Lacks [] a b h = tt
replace_all-Lacks (c ∷ s) a b h = (ground arith, replace_all-Lacks s a b h)

pub replace_all_of_Lacks : (s : String) (a : ℕ) (b : Char) → Lacks a s → replace_all s a b ≡ s
unfolding replace_all
replace_all_of_Lacks [] a b h = refl
replace_all_of_Lacks (c ∷ s) a b h = ground (arith, replace_all_of_Lacks s a b h.1, h.0)

abbrev pub AllLack : ℕ → List String → Type 0
AllLack a List.[] = Unit
AllLack a (List.◌∷◌ p ps) = Lacks a p × AllLack a ps

cons_head-AllLack :
    (a : ℕ) (c : Char) (ps : List String) → code c ≢ a → AllLack a ps → AllLack a (cons_head c ps)
cons_head-AllLack a c List.[] h k = ((h, tt), tt)
cons_head-AllLack a c (List.◌∷◌ p ps) h k = ((h, k.0), k.1)

pub split-AllLack : (s : String) (a : ℕ) → AllLack a (split s a)
unfolding split
split-AllLack [] a = (tt, tt)
split-AllLack (c ∷ s) a = elim (ℕ_discrete (code c) a) [
  | yes e ↦ rw (same_code c e) (tt, split-AllLack s a)
  | no n ↦ rw (other_code c n) (cons_head-AllLack a c (split s a) n (split-AllLack s a))
]

pub split-ne-nil : (s : String) (a : ℕ) → split s a ≢ List.[]
unfolding split
split-ne-nil [] a h = cc
split-ne-nil (c ∷ s) a h = ground (arith, cons_head-ne-nil c (split s a))

join-cons_head :
    (c : Char) (ps : List String) (b : Char)
    → ps ≢ List.[]
    → join (cons_head c ps) b ≡ c ∷ join ps b
unfolding join
join-cons_head c List.[] b h = absurd (h refl)
join-cons_head c (List.◌∷◌ p List.[]) b h = refl
join-cons_head c (List.◌∷◌ p (List.◌∷◌ q ps)) b h = cons-append c p _

join-cons_nil :
    (ps : List String) (b : Char) → ps ≢ List.[] → join (List.◌∷◌ [] ps) b ≡ b ∷ join ps b
unfolding join
join-cons_nil List.[] b h = absurd (h refl)
join-cons_nil (List.◌∷◌ q ps) b h = nil-append _

pub join-split : (s : String) (b : Char) → join (split s (code b)) b ≡ s
unfolding split
join-split [] b = unfold join in refl
join-split (c ∷ s) b = elim (ℕ_discrete (code c) (code b)) [
  | yes e ↦ rw (same_code c e) (
      join-cons_nil (split s (code b)) b (split-ne-nil s (code b))
      ∙ ap₂ ◌∷◌ (sym (Char-path c b e)) (join-split s b))
  | no n ↦ rw (other_code c n) (
      join-cons_head c (split s (code b)) b (split-ne-nil s (code b))
      ∙ ap (λ t. c ∷ t) (join-split s b))
]

split-Lacks : (s : String) (a : ℕ) → Lacks a s → split s a ≡ List.◌∷◌ s List.[]
unfolding split
split-Lacks [] a h = refl
split-Lacks (c ∷ s) a h = rw (other_code c h.0, split-Lacks s a h.1)

split-other :
    (c : Char) (s : String) {a : ℕ} {p : String} {ps : List String}
    → code c ≢ a
    → split s a ≡ List.◌∷◌ p ps
    → split (c ∷ s) a ≡ List.◌∷◌ (c ∷ p) ps
unfolding split
split-other c s h e = rw (other_code c h, e)

-- A part without the separator, the separator, a rest.
split-append :
    (p : String) (b : Char) (s : String)
    → Lacks (code b) p
    → split (p ++ (b ∷ s)) (code b) ≡ List.◌∷◌ p (split s (code b))
split-append [] b s h = rw (nil-append (b ∷ s)) (unfold split in rw (same_code b refl))
split-append (c ∷ p) b s h =
    rw (cons-append c p (b ∷ s)) (split-other c _ h.0 (split-append p b s h.1))

pub split-join :
    (ps : List String) (b : Char)
    → ps ≢ List.[]
    → AllLack (code b) ps
    → split (join ps b) (code b) ≡ ps
unfolding join
split-join List.[] b h k = absurd (h refl)
split-join (List.◌∷◌ p List.[]) b h k = split-Lacks p (code b) k.0
split-join (List.◌∷◌ p (List.◌∷◌ q ps)) b h k =
    split-append p b _ k.0 ∙ ap (List.◌∷◌ p) (split-join (List.◌∷◌ q ps) b (λ e. cc) k.1)

-- Before the first separator and after it a text is read in one way.
pub append-sep_injective :
    (p q : String) (b : Char) (s t : String)
    → Lacks (code b) p
    → Lacks (code b) q
    → p ++ (b ∷ s) ≡ q ++ (b ∷ t)
    → (p ≡ q) × (s ≡ t)
append-sep_injective p q b s t hp hq e =
    let parts =
      sym (split-append p b s hp) ∙ ap (λ x. split x (code b)) e ∙ split-append q b t hq in
    (cc parts, sym (join-split s b) ∙ ap (λ x. join x b) (tails parts) ∙ join-split t b)
  where
    tails : {x y : String} {xs ys : List String} → List.◌∷◌ x xs ≡ List.◌∷◌ y ys → xs ≡ ys
    tails h = cc
