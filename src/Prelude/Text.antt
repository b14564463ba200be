-- ===== src/Prelude/Text.antt =====
-- Go strings as their bytes, and the functions of the `strings` package that the operator calls.
use Prim.Native.Nat.{ℕ}
use Prim.Native.Char.{code}
use Prim.Native.String.{String}
use mathlib.Core.Path.{◌≡◌, refl, ap}
use mathlib.Core.Logic.{◌↔◌, inl, inr}
use mathlib.Core.Bool.{Bool, true, false, ◌&&◌, ◌||◌}
use mathlib.Core.Option.{Option, none, some}
use mathlib.Core.List.{List, [], ◌∷◌, ◌++◌}
use native.Mathlib.Omega.{arith}
use netbird_operator.Prelude.Tests.{Bool-cases, ◌==◌, if◌then◌else◌}

abbrev pub Str : Type 0
Str = List ℕ

-- The bytes of an ASCII literal.
abbrev pub bytes : String → Str
bytes String.[] = []
bytes (String.◌∷◌ c s) = code c ∷ bytes s

-- `s == t`
unfoldable pub str_eq : Str → Str → Bool
str_eq [] [] = true
str_eq [] (b ∷ t) = false
str_eq (a ∷ s) [] = false
str_eq (a ∷ s) (b ∷ t) = (a == b) && str_eq s t

pub str_eq_refl : (s : Str) → str_eq s s ≡ true
unfolding str_eq
str_eq_refl [] = refl
str_eq_refl (a ∷ s) = ground (arith, str_eq_refl s)

pub str_eq→eq : (s t : Str) → str_eq s t ≡ true → s ≡ t
unfolding str_eq
str_eq→eq [] [] h = refl
str_eq→eq [] (b ∷ t) h = cc
str_eq→eq (a ∷ s) [] h = cc
str_eq→eq (a ∷ s) (b ∷ t) h = ground (arith, str_eq→eq s t)

str_eq_iff : (s t : Str) → (str_eq s t ≡ true) ↔ (s ≡ t)
str_eq_iff s t = (str_eq→eq s t, λ e. rw e (str_eq_refl t))

-- `s == ""`
abbrev pub is_empty : Str → Bool
is_empty [] = true
is_empty (_ ∷ _) = false

-- `strings.CutPrefix`: the rest behind the prefix, if there.
unfoldable pub cut_prefix : Str → Str → Option Str
cut_prefix s [] = some s
cut_prefix [] (p ∷ ps) = none
cut_prefix (a ∷ s) (p ∷ ps) = if a == p then cut_prefix s ps else none

abbrev pub is_some {ℓ} : {A : Type ℓ} → Option A → Bool
is_some none = false
is_some (some _) = true

-- `strings.HasPrefix`
unfoldable pub has_prefix : Str → Str → Bool
unfolding cut_prefix
has_prefix s p = is_some (cut_prefix s p)

abbrev pub get_or {ℓ} : {A : Type ℓ} → Option A → A → A
get_or none d = d
get_or (some a) d = a

-- `strings.TrimPrefix`
unfoldable pub trim_prefix : Str → Str → Str
unfolding cut_prefix
trim_prefix s p = get_or (cut_prefix s p) s

-- `strings.HasSuffix`: `s` ends in `p`.
unfoldable pub has_suffix : Str → Str → Bool
unfolding str_eq
has_suffix [] p = str_eq [] p
has_suffix (a ∷ s) p = str_eq (a ∷ s) p || has_suffix s p

pub cut_prefix-append : (s p r : Str) → cut_prefix s p ≡ some r → s ≡ p ++ r
unfolding cut_prefix
cut_prefix-append s [] r h = ground arith
cut_prefix-append [] (p ∷ ps) r h = cc
cut_prefix-append (a ∷ s) (p ∷ ps) r h = ground (arith, cut_prefix-append s ps r)

pub has_suffix→append : (s p : Str) → has_suffix s p ≡ true → (r : Str) × (s ≡ r ++ p)
unfolding has_suffix
has_suffix→append [] p h = ([], str_eq→eq [] p h)
has_suffix→append (a ∷ s) p h = elim (Bool-cases (str_eq (a ∷ s) p)) [
  | inl e ↦ ([], str_eq→eq (a ∷ s) p e)
  | inr e ↦ let k = has_suffix→append s p (ground arith) in (a ∷ k.0, ap (λ t. a ∷ t) k.1)
]

pub append→has_suffix : (r p : Str) → has_suffix (r ++ p) p ≡ true
unfolding has_suffix
append→has_suffix [] [] = refl
append→has_suffix [] (a ∷ p) = ground (arith, str_eq_refl (a ∷ p))
append→has_suffix (a ∷ r) p = ground (arith, append→has_suffix r p)

pub str_eq_comm : (s t : Str) → str_eq s t ≡ str_eq t s
unfolding str_eq
str_eq_comm [] [] = refl
str_eq_comm [] (b ∷ t) = refl
str_eq_comm (a ∷ s) [] = refl
str_eq_comm (a ∷ s) (b ∷ t) = ground (arith, str_eq_comm s t)

has_suffix_iff : (s p : Str) → (has_suffix s p ≡ true) ↔ ((r : Str) × (s ≡ r ++ p))
has_suffix_iff s p = (has_suffix→append s p, λ (r, e). rw e (append→has_suffix r p))

pub append→cut_prefix : (p r : Str) → cut_prefix (p ++ r) p ≡ some r
unfolding cut_prefix
append→cut_prefix [] r = refl
append→cut_prefix (a ∷ p) r = ground (arith, append→cut_prefix p r)
