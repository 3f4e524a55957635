-- ===== src/Prelude/Lists.antt =====
-- Boolean tests, and lists by Boolean tests.
use Prim.Native.Nat.{ℕ, suc, compare, Ordering}
use mathlib.Core.Path.{◌≡◌, refl, ap}
use mathlib.Core.Logic.{◌⊎◌, inl, inr}
use mathlib.Core.Bool.{Bool, true, false, ◌||◌}
use mathlib.Core.Option.{Option, none, some}
use mathlib.Core.List.{List, [], ◌∷◌, ◌++◌, map}
use native.Mathlib.Omega.{arith}

infix 1 if◌then◌else◌
abbrev pub if◌then◌else◌ {ℓ} : {A : Type ℓ} → Bool → A → A → A
if true then x else y = x
if false then x else y = y

abbrev pub ltb : ℕ → ℕ → Bool
ltb a b = elim (compare a b) [ Ordering.lt ↦ true | _ ↦ false ]

abbrev pub nat_eq : ℕ → ℕ → Bool
nat_eq a b = elim (compare a b) [ Ordering.eq ↦ true | _ ↦ false ]

pub Option-cases {ℓ} : {A : Type ℓ} (o : Option A) → (o ≡ none) ⊎ ((a : A) × (o ≡ some a))
Option-cases none = inl refl
Option-cases (some a) = inr (a, refl)

module _ {ℓ} {A : Type ℓ} where
  abbrev pub length : List A → ℕ
  length [] = 0
  length (x ∷ xs) = suc (length xs)

  abbrev pub any : (A → Bool) → List A → Bool
  any p [] = false
  any p (x ∷ xs) = p x || any p xs

  abbrev pub filter : (A → Bool) → List A → List A
  filter p [] = []
  filter p (x ∷ xs) = if p x then x ∷ filter p xs else filter p xs

  abbrev pub find : (A → Bool) → List A → Option A
  find p [] = none
  find p (x ∷ xs) = if p x then some x else find p xs

  pub any-append : (p : A → Bool) (xs ys : List A) → any p (xs ++ ys) ≡ (any p xs || any p ys)
  any-append p [] ys = refl
  any-append p (x ∷ xs) ys = ground (arith, any-append p xs ys)

  pub filter-append :
      (p : A → Bool) (xs ys : List A) → filter p (xs ++ ys) ≡ filter p xs ++ filter p ys
  filter-append p [] ys = refl
  filter-append p (x ∷ xs) ys = ground (arith, filter-append p xs ys)

abbrev pub flat_map {ℓ} : {A B : Type ℓ} → (A → List B) → List A → List B
flat_map f [] = []
flat_map f (x ∷ xs) = f x ++ flat_map f xs

-- To stand in a list.
abbrev pub Listed : {A : Type 0} → A → List A → Type 0
Listed x [] = ⊥
Listed x (y ∷ ys) = (x ≡ y) ⊎ Listed x ys

pub Listed-map :
    {A B : Type 0} (f : A → B) (y : B) (xs : List A)
    → Listed y (map f xs)
    → (x : A) × Listed x xs × (y ≡ f x)
Listed-map f y [] h = absurd h
Listed-map f y (x ∷ xs) (inl here) = (x, inl refl, here)
Listed-map f y (x ∷ xs) (inr later) =
    let (z, listed, e) = Listed-map f y xs later in (z, inr listed, e)

pub any-Listed :
    {A : Type 0} (p : A → Bool) (xs : List A)
    → any p xs ≡ true
    → (x : A) × Listed x xs × (p x ≡ true)
any-Listed p [] h = cc
any-Listed p (x ∷ xs) h =
    elim (p x) as (λ b. p x ≡ b → (y : _) × Listed y (x ∷ xs) × (p y ≡ true)) [
      | true ↦ λ e. (x, inl refl, e)
      | false ↦
          λ e. let (y, later, held) = any-Listed p xs (ground (arith, h, e)) in (y, inr later, held)
    ]
      refl

pub Listed-any :
    {A : Type 0} (p : A → Bool) (x : A) (xs : List A) → Listed x xs → p x ≡ true → any p xs ≡ true
Listed-any p x [] h e = absurd h
Listed-any p x (y ∷ ys) (inl here) e = ground (arith, ap p here, e)
Listed-any p x (y ∷ ys) (inr later) e = ground (arith, Listed-any p x ys later e)
