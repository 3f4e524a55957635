-- ===== src/Prelude/Text/Affix.antt =====
-- The beginning and the end of a text, and texts put together.
use Prim.Native.Char.{Char, code}
use Prim.Native.String.{String, [], ◌∷◌, ◌++◌, count}
use mathlib.Core.Path.{◌≡◌, refl, ap}
use mathlib.Core.Logic.{inl, inr}
use mathlib.Core.Bool.{Bool, true, false, ◌||◌}
use mathlib.Core.Option.{Option, none, some}
use mathlib.Core.List.{List}
use native.Mathlib.Omega.{arith}
use text.Mathlib.Text.{◌==◌}
use text.Mathlib.TextEquality.{eq_iff, Char-path}
use text.Mathlib.TextPositions.{eq_refl}
use text.Mathlib.TextLemmas.{nil-append, cons-append, length-append, length-cons}
use security_operator.Prelude.Lists.{if◌then◌else◌, nat_eq, Option-cases}

abbrev same : Char → Char → Bool
same c d = nat_eq (code c) (code d)

same_path : (c d : Char) → same c d ≡ true → c ≡ d
same_path c d h = Char-path c d (ground arith)

abbrev pub cons_some : Char → Option String → Option String
cons_some c none = none
cons_some c (some s) = some (c ∷ s)

abbrev pub is_some {ℓ} : {A : Type ℓ} → Option A → Bool
is_some none = false
is_some (some a) = true

abbrev pub or_else {ℓ} : {A : Type ℓ} → Option A → A → A
or_else none d = d
or_else (some a) d = a

unfoldable pub strip_prefix : String → String → Option String
strip_prefix s [] = some s
strip_prefix [] (d ∷ p) = none
strip_prefix (c ∷ s) (d ∷ p) = if same c d then strip_prefix s p else none

unfoldable pub strip_suffix : String → String → Option String
strip_suffix [] p = if [] == p then some [] else none
strip_suffix (c ∷ s) p = if (c ∷ s) == p then some [] else cons_some c (strip_suffix s p)

-- strings.HasPrefix, TrimPrefix, HasSuffix, TrimSuffix
abbrev pub has_prefix : String → String → Bool
has_prefix s p = is_some (strip_prefix s p)

abbrev pub trim_prefix : String → String → String
trim_prefix s p = or_else (strip_prefix s p) s

abbrev pub has_suffix : String → String → Bool
has_suffix s p = is_some (strip_suffix s p)

abbrev pub trim_suffix : String → String → String
trim_suffix s p = or_else (strip_suffix s p) s

-- strings.Contains
unfoldable pub contains : String → String → Bool
unfolding strip_prefix
contains [] t = has_prefix [] t
contains (c ∷ s) t = has_prefix (c ∷ s) t || contains s t

pub strip_prefix-append : (p s : String) → strip_prefix (p ++ s) p ≡ some s
unfolding strip_prefix
strip_prefix-append [] s = ap some (nil-append s)
strip_prefix-append (c ∷ p) s = rw (cons-append c p s) (ground (arith, strip_prefix-append p s))

pub strip_prefix_sound : (s p r : String) → strip_prefix s p ≡ some r → s ≡ p ++ r
unfolding strip_prefix
strip_prefix_sound s [] r h = rw nil-append (ground arith)
strip_prefix_sound [] (d ∷ p) r h = cc
strip_prefix_sound (c ∷ s) (d ∷ p) r h =
    ground (arith, strip_prefix_sound s p r, cons-append d p r, same_path c d)

strip_suffix_self : (p : String) → strip_suffix p p ≡ some []
unfolding strip_suffix
strip_suffix_self [] = refl
strip_suffix_self (c ∷ p) = rw (eq_refl (c ∷ p))

shorter : (c : Char) (s t : String) → ((c ∷ (s ++ t)) == t) ≡ false
shorter c s t = ground (arith, eq_iff (c ∷ (s ++ t)) t, λ (e : c ∷ (s ++ t) ≡ t). longer-ne c s t e)
  where
    longer-ne : (c : Char) (s t : String) → c ∷ (s ++ t) ≡ t → ⊥
    longer-ne c s t e = omega (arith, ap count e, length-cons c (s ++ t), length-append s t)

strip_suffix-longer :
    (c : Char) (s p : String)
    → strip_suffix (s ++ p) p ≡ some s
    → strip_suffix (c ∷ (s ++ p)) p ≡ some (c ∷ s)
unfolding strip_suffix
strip_suffix-longer c s p h = rw (shorter c s p, h)

pub strip_suffix-append : (s p : String) → strip_suffix (s ++ p) p ≡ some s
strip_suffix-append [] p = rw (nil-append p) (strip_suffix_self p)
strip_suffix-append (c ∷ s) p =
    rw (cons-append c s p) (strip_suffix-longer c s p (strip_suffix-append s p))

pub strip_suffix_sound : (s p r : String) → strip_suffix s p ≡ some r → s ≡ r ++ p
unfolding strip_suffix
strip_suffix_sound [] p r h = ground (arith, eq_iff [] p, nil-append p)
strip_suffix_sound (c ∷ s) p r h = elim (Option-cases (strip_suffix s p)) [
  | inl e ↦ ground (arith, eq_iff (c ∷ s) p, nil-append p)
  | inr (t, e) ↦
      ground (arith, eq_iff (c ∷ s) p, nil-append p, strip_suffix_sound s p t e, cons-append c t p)
]

-- fmt.Sprintf with %s alone: the pieces of the format and its arguments, in order.
abbrev pub concat : List String → String
concat List.[] = []
concat (List.◌∷◌ p List.[]) = p
concat (List.◌∷◌ p (List.◌∷◌ q ps)) = p ++ concat (List.◌∷◌ q ps)
