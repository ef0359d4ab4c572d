-- ===== src/Prelude/Lists.antt =====
-- Lists measured by native numbers, filtered by Boolean tests, and the predicates over them.
use Prim.Native.Nat.{ℕ, zero, suc, ◌+◌, ◌-◌, min}
use mathlib.Core.Path.{◌≡◌, refl, ap, sym, ◌∙◌}
use mathlib.Core.Logic.{inl, inr, ∥∥₁_map}
use mathlib.Core.List.{Perm, Permᴰ}
use mathlib.Core.List.Permᴰ
use mathlib.Core.Bool.{Bool, true, false, ◌&&◌, ◌||◌}
use mathlib.Core.List.{List, [], ◌∷◌, ◌++◌, map}
use mathlib.Core.Option.{Option, none, some}
use native.Mathlib.Omega.{arith}
use spire_controller_manager.Prelude.Tests.{if◌then◌else◌, Bool-cases}

module _ {ℓ} {A : Type ℓ} where
  abbrev pub length : List A → ℕ
  length [] = 0
  length (x ∷ xs) = suc (length xs)

  abbrev pub take : ℕ → List A → List A
  take zero xs = []
  take (suc n) [] = []
  take (suc n) (x ∷ xs) = x ∷ take n xs

  abbrev pub drop : ℕ → List A → List A
  drop zero xs = xs
  drop (suc n) [] = []
  drop (suc n) (x ∷ xs) = drop n xs

  abbrev pub is_empty : List A → Bool
  is_empty [] = true
  is_empty (x ∷ xs) = false

  abbrev pub head? : List A → Option A
  head? [] = none
  head? (x ∷ xs) = some x

  -- the elements that pass a test, in order
  unfoldable pub keep : (A → Bool) → List A → List A
  keep p [] = []
  keep p (x ∷ xs) = let rest = keep p xs in if p x then x ∷ rest else rest

  unfoldable pub any : (A → Bool) → List A → Bool
  any p [] = false
  any p (x ∷ xs) = p x || any p xs

  unfoldable pub all : (A → Bool) → List A → Bool
  all p [] = true
  all p (x ∷ xs) = p x && all p xs

  pub length-append : (xs ys : List A) → length (xs ++ ys) ≡ length xs + length ys
  length-append [] ys = omega arith
  length-append (x ∷ xs) ys = omega (arith, length-append xs ys)

  pub take-append-drop : (n : ℕ) (xs : List A) → take n xs ++ drop n xs ≡ xs
  take-append-drop zero xs = refl
  take-append-drop (suc n) [] = refl
  take-append-drop (suc n) (x ∷ xs) = ap (◌∷◌ x) (take-append-drop n xs)

  pub length-take : (n : ℕ) (xs : List A) → length (take n xs) ≡ min n (length xs)
  length-take zero xs = omega arith
  length-take (suc n) [] = omega arith
  length-take (suc n) (x ∷ xs) = omega (arith, length-take n xs)

  pub length-drop : (n : ℕ) (xs : List A) → length (drop n xs) ≡ length xs - n
  length-drop zero xs = omega arith
  length-drop (suc n) [] = omega arith
  length-drop (suc n) (x ∷ xs) = omega (arith, length-drop n xs)

  pub keep-append : (p : A → Bool) (xs ys : List A) → keep p (xs ++ ys) ≡ keep p xs ++ keep p ys
  unfolding keep
  keep-append p [] ys = refl
  keep-append p (x ∷ xs) ys = ground (arith, keep-append p xs ys)

  -- a list on which the test always passes, or never does
  abbrev pub All {κ} : (A → Type κ) → List A → Type κ
  All P [] = Unit
  All P (x ∷ xs) = P x × All P xs

  pub keep_whole : (p : A → Bool) (xs : List A) → All (λ x. p x ≡ true) xs → keep p xs ≡ xs
  unfolding keep
  keep_whole p [] h = refl
  keep_whole p (x ∷ xs) h = ground (arith, keep_whole p xs h.1)

  pub keep-none : (p : A → Bool) (xs : List A) → All (λ x. p x ≡ false) xs → keep p xs ≡ []
  unfolding keep
  keep-none p [] h = refl
  keep-none p (x ∷ xs) h = ground (arith, keep-none p xs h.1)

  pub keep-All : (p : A → Bool) (xs : List A) → All (λ x. p x ≡ true) (keep p xs)
  unfolding keep
  keep-All p [] = tt
  keep-All p (x ∷ xs) = ground (arith, keep-All p xs)

module _ {ℓ κ} {A : Type ℓ} (P : A → Type κ) where
  pub All-append : (xs ys : List A) → All P xs → All P ys → All P (xs ++ ys)
  All-append [] ys a b = b
  All-append (x ∷ xs) ys a b = (a.0, All-append xs ys a.1 b)

  pub All-middle : {x : A} (xs ys : List A) → P x → All P (xs ++ ys) → All P (xs ++ x ∷ ys)
  All-middle [] ys p a = (p, a)
  All-middle (y ∷ xs) ys p a = (a.0, All-middle xs ys p a.1)

  pub keep-sub : (p : A → Bool) (xs : List A) → All P xs → All P (keep p xs)
  unfolding keep
  keep-sub p [] a = tt
  keep-sub p (x ∷ xs) a = elim (Bool-cases (p x)) [
    | inl y ↦ rw y (a.0, keep-sub p xs a.1)
    | inr n ↦ rw n (keep-sub p xs a.1)
  ]

module _ {ℓ} {A : Type ℓ} (p : A → Bool) where
  keep-permᴰ : {xs ys : List A} → Permᴰ xs ys → Permᴰ (keep p xs) (keep p ys)
  unfolding keep
  keep-permᴰ Permᴰ.nil = Permᴰ.nil
  keep-permᴰ (Permᴰ.cons {a = a} {b = b} e d) = elim (Bool-cases (p a)) [
    | inl y ↦ rw (y, (ap p (sym e) ∙ y)) (Permᴰ.cons e (keep-permᴰ d))
    | inr n ↦ rw (n, (ap p (sym e) ∙ n)) (keep-permᴰ d)
  ]
  keep-permᴰ (Permᴰ.swap {a = a} {b = b} {a' = c} {b' = d} {l = l} e f) =
      rw (← e, ← f) (swap_kept a b)
    where
      swap_kept : (a b : A) → Permᴰ (keep p (a ∷ b ∷ l)) (keep p (b ∷ a ∷ l))
      swap_kept a b = elim (Bool-cases (p a)) [
        | inl y ↦ elim (Bool-cases (p b)) [
          | inl z ↦ rw (y, z) (Permᴰ.swap refl refl)
          | inr z ↦ rw (y, z) (Permᴰ.refl _)
        ]
        | inr y ↦ elim (Bool-cases (p b)) [
          | inl z ↦ rw (y, z) (Permᴰ.refl _)
          | inr z ↦ rw (y, z) (Permᴰ.refl _)
        ]
      ]
  keep-permᴰ (Permᴰ.trans d e) = Permᴰ.trans (keep-permᴰ d) (keep-permᴰ e)

  pub keep-perm : {xs ys : List A} → Perm xs ys → Perm (keep p xs) (keep p ys)
  keep-perm {xs} {ys} h = ∥∥₁_map {B = Permᴰ (keep p xs) (keep p ys)} h keep-permᴰ

module _ {ℓ κ} {A : Type ℓ} {B : Type κ} where
  pub length-map : (xs : List A) (f : A → B) → length (map f xs) ≡ length xs
  length-map [] f = refl
  length-map (x ∷ xs) f = ap suc (length-map xs f)
