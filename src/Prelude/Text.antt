-- ===== src/Prelude/Text.antt =====
-- Go strings as the sequences of their bytes, with the operations of the package strings that the
-- program calls. `codes` reads a literal.
use Prim.Native.Char.{code}
use Prim.Native.String.{String}
use Prim.Native.Nat.{ℕ}
use mathlib.Core.Path.{◌≡◌, refl}
use mathlib.Core.Logic.{◌↔◌}
use mathlib.Core.Bool.{Bool, true, false, ◌&&◌, ◌||◌}
use mathlib.Core.Option.{Option, none, some}
use mathlib.Core.List.{List, [], ◌∷◌, ◌++◌}
use native.Mathlib.Omega.{arith}
use spire_controller_manager.Prelude.Tests.{ltb, ◌==◌, if◌then◌else◌}
use spire_controller_manager.Prelude.Lists.{any}

abbrev pub Str : Type 0
Str = List ℕ

abbrev pub codes : String → Str
codes String.[] = []
codes (String.◌∷◌ c s) = code c ∷ codes s

-- s == t
unfoldable pub str_eq : Str → Str → Bool
str_eq [] [] = true
str_eq (a ∷ s) (b ∷ t) = a == b && str_eq s t
str_eq _ _ = false

-- s < t, byte by byte
unfoldable pub str_lt : Str → Str → Bool
str_lt s [] = false
str_lt [] (b ∷ t) = true
str_lt (a ∷ s) (b ∷ t) = ltb a b || (a == b && str_lt s t)

-- strings.HasPrefix(s, prefix), with the prefix first
unfoldable pub has_prefix : Str → Str → Bool
has_prefix [] s = true
has_prefix (a ∷ p) [] = false
has_prefix (a ∷ p) (b ∷ s) = a == b && has_prefix p s

-- strings.Contains(s, c) for a text c of one byte
unfoldable pub contains_byte : ℕ → Str → Bool
contains_byte c [] = false
contains_byte c (a ∷ s) = a == c || contains_byte c s

-- the text before the first byte c, and the text behind it, if there is such a byte
unfoldable pub cut_byte : ℕ → Str → Option (Str × Str)
cut_byte c [] = none
cut_byte c (a ∷ s) =
    if a == c
    then some ([], s)
    else elim (cut_byte c s) [ none ↦ none | some (h, t) ↦ some (a ∷ h, t) ]

-- strings.Join(parts, sep)
unfoldable pub join : List Str → Str → Str
join [] sep = []
join (s ∷ []) sep = s
join (s ∷ t ∷ r) sep = s ++ (sep ++ join (t ∷ r) sep)

-- lo.Uniq: the first occurrence of each
uniq_from : List Str → List Str → List Str
uniq_from seen [] = []
uniq_from seen (s ∷ rest) =
    let old = uniq_from seen rest in
    let new = uniq_from (s ∷ seen) rest in if any (str_eq s) seen then old else s ∷ new

unfoldable pub uniq : List Str → List Str
unfolding uniq_from any
uniq = uniq_from []

pub str_eq_refl : (s : Str) → str_eq s s ≡ true
unfolding str_eq
str_eq_refl [] = refl
str_eq_refl (a ∷ s) = ground (arith, str_eq_refl s)

pub str_eq→eq : (s t : Str) → str_eq s t ≡ true → s ≡ t
unfolding str_eq
str_eq→eq [] [] h = refl
str_eq→eq (a ∷ s) (b ∷ t) h = ground (arith, str_eq→eq s t)
str_eq→eq _ _ h = ground arith

pub str_eq_iff : (s t : Str) → (str_eq s t ≡ true) ↔ (s ≡ t)
str_eq_iff s t = (str_eq→eq s t, λ e. rw e (str_eq_refl t))

pub str_lt_irrefl : (s : Str) → str_lt s s ≡ false
unfolding str_lt
str_lt_irrefl [] = refl
str_lt_irrefl (a ∷ s) = ground (arith, str_lt_irrefl s)

pub str_lt_trans : (s t u : Str) → str_lt s t ≡ true → str_lt t u ≡ true → str_lt s u ≡ true
unfolding str_lt
str_lt_trans [] [] u h k = ground arith
str_lt_trans (a ∷ s) [] u h k = ground arith
str_lt_trans s (b ∷ t) [] h k = ground arith
str_lt_trans [] (b ∷ t) (c ∷ u) h k = refl
str_lt_trans (a ∷ s) (b ∷ t) (c ∷ u) h k = ground (arith, str_lt_trans s t u)

-- two texts, neither below the other, are one
pub str_lt_total : (s t : Str) → str_lt s t ≡ false → str_lt t s ≡ false → s ≡ t
unfolding str_lt
str_lt_total [] [] h k = refl
str_lt_total [] (b ∷ t) h k = ground arith
str_lt_total (a ∷ s) [] h k = ground arith
str_lt_total (a ∷ s) (b ∷ t) h k = ground (arith, str_lt_total s t)

pub str_lt_asym : (s t : Str) → str_lt s t ≡ true → str_lt t s ≡ false
str_lt_asym s t h = ground (arith, str_lt_trans s t s, str_lt_irrefl s)

pub str_lt_negtrans : (s t u : Str) → str_lt s t ≡ false → str_lt t u ≡ false → str_lt s u ≡ false
unfolding str_lt
str_lt_negtrans s t [] h k = refl
str_lt_negtrans [] [] (c ∷ u) h k = ground arith
str_lt_negtrans (a ∷ s) [] (c ∷ u) h k = ground arith
str_lt_negtrans [] (b ∷ t) (c ∷ u) h k = ground arith
str_lt_negtrans (a ∷ s) (b ∷ t) (c ∷ u) h k = ground (arith, str_lt_negtrans s t u)

pub has_prefix-append : (p s : Str) → has_prefix p (p ++ s) ≡ true
unfolding has_prefix
has_prefix-append [] s = refl
has_prefix-append (a ∷ p) s = ground (arith, has_prefix-append p s)
