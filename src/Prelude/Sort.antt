-- ===== src/Prelude/Sort.antt =====
-- sort.Slice, sort.Strings and slices.SortStableFunc as a stable insertion sort by a Boolean "less".
-- For a strict total order the result does not depend on the algorithm: `sort-eq_of_perm`.
use mathlib.Core.Path.{◌≡◌, refl, ◌∙◌, ap}
use mathlib.Core.Logic.{◌↔◌, inl, inr, ∥∥₁_elim}
use mathlib.Core.Bool.{Bool, true, false}
use mathlib.Core.List.{List, [], ◌∷◌, Perm, Permᴰ}
use mathlib.Core.List.Perm
use native.Mathlib.Omega.{arith}
use spire_controller_manager.Prelude.Tests.{if◌then◌else◌, Bool-cases}
use spire_controller_manager.Prelude.Lists.{All}

module _ {ℓ} {A : Type ℓ} (lt : A → A → Bool) where
  unfoldable pub insert : A → List A → List A
  insert x [] = x ∷ []
  insert x (y ∷ ys) = let rest = insert x ys in if lt y x then y ∷ rest else x ∷ y ∷ ys

  unfoldable pub sort : List A → List A
  unfolding insert
  sort [] = []
  sort (x ∷ xs) = insert x (sort xs)

  pub insert-perm : (x : A) (xs : List A) → Perm (insert x xs) (x ∷ xs)
  unfolding insert
  insert-perm x [] = Perm.refl (x ∷ [])
  insert-perm x (y ∷ ys) = elim (Bool-cases (lt y x)) [
    | inl h ↦ rw h (Perm.trans (Perm.cons y (insert-perm x ys)) (Perm.swap x y ys))
    | inr h ↦ rw h (Perm.refl (x ∷ y ∷ ys))
  ]

  -- the sorted list has the same elements, as often
  pub sort-perm : (xs : List A) → Perm (sort xs) xs
  unfolding sort
  sort-perm [] = Perm.nil
  sort-perm (x ∷ xs) = Perm.trans (insert-perm x (sort xs)) (Perm.cons x (sort-perm xs))

  -- no element stands behind one that it is less than
  abbrev pub IsSorted : List A → Type 0
  IsSorted [] = Unit
  IsSorted (x ∷ xs) = All (λ y. lt y x ≡ false) xs × IsSorted xs

  -- the comparison of a sort: a weak order, in which equivalent elements may differ
  pub record WeakOrder : Type ℓ where
    pub asym : (x y : A) → lt x y ≡ true → lt y x ≡ false
    pub negtrans : (x y z : A) → lt x y ≡ false → lt y z ≡ false → lt x z ≡ false

  -- a comparison in which no two elements are equivalent
  pub record StrictOrder : Type ℓ where
    pub irrefl : (x : A) → lt x x ≡ false
    pub trans : (x y z : A) → lt x y ≡ true → lt y z ≡ true → lt x z ≡ true
    pub total : (x y : A) → lt x y ≡ false → lt y x ≡ false → x ≡ y

module _ {ℓ} {A : Type ℓ} {lt : A → A → Bool} (w : WeakOrder lt) where
  All-weaken :
      (x y : A) (xs : List A)
      → lt y x ≡ false
      → All (λ z. lt z y ≡ false) xs
      → All (λ z. lt z x ≡ false) xs
  All-weaken x y [] h a = tt
  All-weaken x y (z ∷ zs) h a = (w.negtrans z y x a.0 h, All-weaken x y zs h a.1)

  All-insert :
      (x y : A) (xs : List A)
      → lt x y ≡ false
      → All (λ z. lt z y ≡ false) xs
      → All (λ z. lt z y ≡ false) (insert lt x xs)
  unfolding insert
  All-insert x y [] h a = (h, tt)
  All-insert x y (z ∷ zs) h a = elim (Bool-cases (lt z x)) [
    | inl e ↦ rw e (a.0, All-insert x y zs h a.1)
    | inr e ↦ rw e (h, a)
  ]

  insert-IsSorted : (x : A) (xs : List A) → IsSorted lt xs → IsSorted lt (insert lt x xs)
  unfolding insert
  insert-IsSorted x [] s = (tt, tt)
  insert-IsSorted x (y ∷ ys) s = elim (Bool-cases (lt y x)) [
    | inl e ↦ rw e (All-insert x y ys (w.asym y x e) s.0, insert-IsSorted x ys s.1)
    | inr e ↦ rw e ((e, All-weaken x y ys e s.0), s)
  ]

  pub sort-IsSorted : (xs : List A) → IsSorted lt (sort lt xs)
  unfolding sort
  sort-IsSorted [] = tt
  sort-IsSorted (x ∷ xs) = insert-IsSorted x (sort lt xs) (sort-IsSorted xs)

module _ {ℓ} {A : Type ℓ} {lt : A → A → Bool} (o : StrictOrder lt) where
  insert_comm : (x y : A) (l : List A) → insert lt x (insert lt y l) ≡ insert lt y (insert lt x l)
  unfolding insert
  insert_comm x y [] = ground (arith, o.total x y, o.trans x y x, o.irrefl x)
  insert_comm x y (z ∷ l) = ground (
    arith,
    o.total x y,
    o.trans x y x,
    o.irrefl x,
    insert_comm x y l,
    o.trans z x y,
    o.trans z y x,
  )

  sort-eq_of_permᴰ : {xs ys : List A} → Permᴰ xs ys → sort lt xs ≡ sort lt ys
  unfolding sort
  sort-eq_of_permᴰ Permᴰ.nil = refl
  sort-eq_of_permᴰ (Permᴰ.cons p d) = cc (sort-eq_of_permᴰ d)
  sort-eq_of_permᴰ (Permᴰ.swap {a = x} {b = y} {l = l} p q) = cc (insert_comm x y (sort lt l))
  sort-eq_of_permᴰ (Permᴰ.trans d e) = sort-eq_of_permᴰ d ∙ sort-eq_of_permᴰ e

  -- the result depends only on which elements there are, and how often
  pub sort-eq_of_perm : IsSet (List A) → {xs ys : List A} → Perm xs ys → sort lt xs ≡ sort lt ys
  sort-eq_of_perm set p = ∥∥₁_elim p (set _ _) sort-eq_of_permᴰ

  pub perm_iff_sort-eq : IsSet (List A) → (xs ys : List A) → Perm xs ys ↔ (sort lt xs ≡ sort lt ys)
  perm_iff_sort-eq set xs ys =
      (sort-eq_of_perm set, λ e. Perm.trans (Perm.symm (sort-perm lt xs)) (rw e (sort-perm lt ys)))

-- what holds of all elements of a list holds of all elements of the sorted list
module _ {ℓ κ} {A : Type ℓ} (P : A → Type κ) (lt : A → A → Bool) where
  insert-All : (x : A) (xs : List A) → P x → All P xs → All P (insert lt x xs)
  unfolding insert
  insert-All x [] p a = (p, tt)
  insert-All x (y ∷ ys) p a = elim (Bool-cases (lt y x)) [
    | inl e ↦ rw e (a.0, insert-All x ys p a.1)
    | inr e ↦ rw e (p, a)
  ]

  pub sort-All : (xs : List A) → All P xs → All P (sort lt xs)
  unfolding sort
  sort-All [] a = tt
  sort-All (x ∷ xs) a = insert-All x (sort lt xs) a.0 (sort-All xs a.1)

-- two comparisons that agree on the elements sort them alike
module _ {ℓ κ} {A : Type ℓ} {P : A → Type κ} {lt lt' : A → A → Bool}
    (agree : (x y : A) → P x → P y → lt x y ≡ lt' x y) where
  insert-congr : (x : A) (xs : List A) → P x → All P xs → insert lt x xs ≡ insert lt' x xs
  unfolding insert
  insert-congr x [] p a = refl
  insert-congr x (y ∷ ys) p a = ground (arith, agree y x a.0 p, insert-congr x ys p a.1)

  pub sort-congr : (xs : List A) → All P xs → sort lt xs ≡ sort lt' xs
  unfolding sort
  sort-congr [] a = refl
  sort-congr (x ∷ xs) a =
      insert-congr x (sort lt xs) a.0 (sort-All P lt xs a.1) ∙ ap (insert lt' x) (sort-congr xs a.1)
