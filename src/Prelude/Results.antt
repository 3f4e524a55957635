-- ===== src/Prelude/Results.antt =====
-- Go's results. A call returns a value or an error, or it panics; the state of the world comes back
-- beside each of these, since what was written before an error stays written.
use Prim.Native.Nat.{ℕ}
use Prim.Native.String.{String}
use mathlib.Core.Path.{◌≡◌, refl, subst, subst⁻¹, ap, ◌∙◌}
use mathlib.Core.Logic.{◌⊎◌, inl, inr}
use mathlib.Core.Bool.{Bool, true, false}

-- An error as the code tells errors apart: by `kerrors.IsNotFound`, `meta.IsNoMatchError`, the
-- status of an HTTP or gRPC answer, or not at all. `wrap` is `fmt.Errorf("…: %w", err)`.
pub data Error : Type 0 where
  not_found no_match : Error
  http : ℕ → String → String → Error
  grpc : ℕ → Error
  fail : String → Error
  wrap : String → Error → Error

pub data Result {ℓ} (A : Type ℓ) : Type ℓ where
  ok : A → Result A
  err : Error → Result A
  crash : String → Result A

abbrev pub Exec {ℓ} : Type ℓ → Type ℓ → Type ℓ
Exec W A = W → Result A × W

module _ {ℓ} {W A : Type ℓ} where
  abbrev pub pure : A → Exec W A
  pure a w = (ok a, w)

  abbrev pub raise : Error → Exec W A
  raise e w = (err e, w)

  abbrev pub panic : String → Exec W A
  panic s w = (crash s, w)

  abbrev pub lift : Result A → Exec W A
  lift r w = (r, w)

  -- `if err != nil { return handle(err) }`
  abbrev handle : Result A → (Error → Exec W A) → Exec W A
  handle (ok a) h w = (ok a, w)
  handle (err e) h w = h e w
  handle (crash s) h w = (crash s, w)

  abbrev pub catch : Exec W A → (Error → Exec W A) → Exec W A
  catch m h w = handle (m w).0 h (m w).1

  abbrev pub context : String → Exec W A → Exec W A
  context s m = catch m (λ e. raise (wrap s e))

module _ {ℓ} {W A B : Type ℓ} where
  abbrev continue : Result A → (A → Exec W B) → Exec W B
  continue (ok a) f w = f a w
  continue (err e) f w = (err e, w)
  continue (crash s) f w = (crash s, w)

  infixl 5 ◌>>=◌ ◌>>◌
  abbrev pub ◌>>=◌ : Exec W A → (A → Exec W B) → Exec W B
  ◌>>=◌ m f w = continue (m w).0 f (m w).1

  abbrev pub ◌>>◌ : Exec W A → Exec W B → Exec W B
  m >> n = m >>= λ _. n

-- A block that succeeds ran its first step successfully, and then the rest from there.
pub continue-eq-ok {ℓ} :
    {W A B : Type ℓ} (r : Result A) (f : A → Exec W B) (w : W) {b : B}
    → (continue r f w).0 ≡ ok b
    → (a : A) × (r ≡ ok a) × (continue r f w ≡ f a w)
continue-eq-ok (ok a) f w h = (a, refl, refl)
continue-eq-ok (err e) f w h = cc
continue-eq-ok (crash s) f w h = cc

pub bind-eq-ok {ℓ} :
    {W A B : Type ℓ} (m : Exec W A) (f : A → Exec W B) (w : W) {b : B}
    → ((m >>= f) w).0 ≡ ok b
    → (a : A) × ((m w).0 ≡ ok a) × ((m >>= f) w ≡ f a (m w).1)
bind-eq-ok m f w h = continue-eq-ok (m w).0 f (m w).1 h

pub Bool-cases : (b : Bool) → (b ≡ true) ⊎ (b ≡ false)
Bool-cases true = inl refl
Bool-cases false = inr refl

-- The same, as to the result of the rest alone.
pub bind-ok {ℓ} :
    {W A B : Type ℓ} (m : Exec W A) (f : A → Exec W B) (w : W) {b : B}
    → ((m >>= f) w).0 ≡ ok b
    → (a : A) × ((m w).0 ≡ ok a) × ((f a (m w).1).0 ≡ ok b)
bind-ok m f w {b} h =
    let (a, called, step) = bind-eq-ok m f w h in (a, called, subst (λ r. r.0 ≡ ok b) step h)

-- `kerrors.IsNotFound` and `meta.IsNoMatchError`, which look through wrapped errors.
abbrev pub is_not_found : Error → Bool
is_not_found Error.not_found = true
is_not_found (Error.wrap s e) = is_not_found e
is_not_found e = false

abbrev pub is_no_match : Error → Bool
is_no_match Error.no_match = true
is_no_match (Error.wrap s e) = is_no_match e
is_no_match e = false

pub Result-cases {ℓ} :
    {A : Type ℓ} (r : Result A)
    → ((a : A) × (r ≡ ok a)) ⊎ (((e : Error) × (r ≡ err e)) ⊎ ((s : String) × (r ≡ crash s)))
Result-cases (ok a) = inl (a, refl)
Result-cases (err e) = inr (inl (e, refl))
Result-cases (crash s) = inr (inr (s, refl))

-- The result of a run, along an equation between runs.
pub carry {ℓ} : {A W : Type ℓ} {r s : Result A × W} {x : Result A} → r ≡ s → r.0 ≡ x → s.0 ≡ x
carry {x = x} e h = subst (λ r. r.0 ≡ x) e h

-- A call whose error is looked at: `a, err := call()`.
abbrev pub attempt {ℓ} : {W A : Type ℓ} → Exec W A → Exec W (Result A)
attempt m w = (ok (m w).0, (m w).1)

-- A run that leaves what is seen of the world as it was, whether or not it succeeds.
abbrev pub Keeps {ℓ} : {W V A : Type ℓ} → (W → V) → Exec W A → Type ℓ
Keeps {W} view m = (w : W) → view (m w).1 ≡ view w

pub bind-Keeps {ℓ} :
    {W V A B : Type ℓ} (view : W → V) (m : Exec W A) (f : A → Exec W B)
    → Keeps view m
    → ((a : A) → Keeps view (f a))
    → Keeps view (m >>= f)
bind-Keeps view m f quiet rest w = elim (Result-cases (m w).0) [
  | inl (a, called) ↦
      ap (λ r. view r.1) (ap (λ r. continue r f (m w).1) called) ∙ rest a (m w).1 ∙ quiet w
  | inr (inl (e, failed)) ↦ ap (λ r. view r.1) (ap (λ r. continue r f (m w).1) failed) ∙ quiet w
  | inr (inr (s, failed)) ↦ ap (λ r. view r.1) (ap (λ r. continue r f (m w).1) failed) ∙ quiet w
]

pub context-Keeps {ℓ} :
    {W V A : Type ℓ} (view : W → V) (s : String) (m : Exec W A)
    → Keeps view m
    → Keeps view (context s m)
context-Keeps view s m quiet w = elim (Result-cases (m w).0) [
  | inl (a, called) ↦ ap (λ r. view (handle r (λ e. raise (wrap s e)) (m w).1).1) called ∙ quiet w
  | inr (inl (e, failed)) ↦
      ap (λ r. view (handle r (λ e. raise (wrap s e)) (m w).1).1) failed ∙ quiet w
  | inr (inr (x, failed)) ↦
      ap (λ r. view (handle r (λ e. raise (wrap s e)) (m w).1).1) failed ∙ quiet w
]

-- A run that, if it succeeds, ends in a world with a property.
abbrev pub Ends {ℓ} : {W A : Type ℓ} → (W → Type ℓ) → Exec W A → Type ℓ
Ends {W} {A} P m = (w : W) (a : A) → (m w).0 ≡ ok a → P (m w).1

pub bind-Ends {ℓ} :
    {W A B : Type ℓ} (P : W → Type ℓ) (m : Exec W A) (f : A → Exec W B)
    → ((a : A) (w : W) → (m w).0 ≡ ok a → Ends P (f a))
    → Ends P (m >>= f)
bind-Ends P m f rest w b h =
    let (a, called, step) = bind-eq-ok m f w h in
    subst⁻¹ (λ r. P r.1) step (rest a w called (m w).1 b (carry step h))
