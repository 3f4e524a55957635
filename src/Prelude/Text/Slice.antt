-- ===== src/Prelude/Text/Slice.antt =====
-- The rest of a text from a position, and its size.
use Prim.Native.Nat.{ℕ, zero, suc, ◌+◌, ◌≤◌, ◌<◌}
use Prim.Native.String.{String, [], ◌∷◌, ◌++◌, count}
use mathlib.Core.Path.{◌≡◌, refl}
use mathlib.Core.Option.{Option, none, some}
use native.Mathlib.Omega.{arith}
use text.Mathlib.TextLemmas.{nil-append, cons-append, length-append, length-cons}

-- `s[n:]`, which is out of range past the end.
unfoldable pub slice_from : ℕ → String → Option String
slice_from zero s = some s
slice_from (suc n) [] = none
slice_from (suc n) (c ∷ s) = slice_from n s

abbrev pub size : String → ℕ
size s = count s

pub slice_from_sound : (n : ℕ) (s r : String) → slice_from n s ≡ some r → size r + n ≡ size s
unfolding slice_from
slice_from_sound zero s r h = ground arith
slice_from_sound (suc n) [] r h = cc
slice_from_sound (suc n) (c ∷ s) r h = omega (arith, slice_from_sound n s r h, length-cons c s)

-- What is cut off is a text of n bytes.
pub slice_from_cut :
    (n : ℕ) (s r : String) → slice_from n s ≡ some r → (p : String) × (s ≡ p ++ r) × (size p ≡ n)
unfolding slice_from
slice_from_cut zero s r h = ([], ground (arith, nil-append r), refl)
slice_from_cut (suc n) [] r h = cc
slice_from_cut (suc n) (c ∷ s) r h =
    let (p, eq, len) = slice_from_cut n s r h in
    (c ∷ p, ground (arith, eq, cons-append c p r), omega (arith, length-cons c p))

pub slice_from-some : (n : ℕ) (s : String) → n ≤ size s → (r : String) × (slice_from n s ≡ some r)
unfolding slice_from
slice_from-some zero s h = (s, refl)
slice_from-some (suc n) [] h = absurd (omega arith)
slice_from-some (suc n) (c ∷ s) h = slice_from-some n s (omega (arith, length-cons c s))

pub slice_from-none : (n : ℕ) (s : String) → size s < n → slice_from n s ≡ none
unfolding slice_from
slice_from-none zero s h = absurd (omega arith)
slice_from-none (suc n) [] h = refl
slice_from-none (suc n) (c ∷ s) h = slice_from-none n s (omega (arith, length-cons c s))

pub size-append : (s t : String) → size (s ++ t) ≡ size s + size t
size-append s t = length-append s t
