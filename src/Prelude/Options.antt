-- ===== src/Prelude/Options.antt =====
-- Calls that may fail, in sequence.
use mathlib.Core.Path.{◌≡◌, refl, ap}
use mathlib.Core.Bool.{Bool, true, false}
use mathlib.Core.Option.{Option, none, some}
use mathlib.Core.List.{List, [], ◌∷◌, map}
use spire_controller_manager.Prelude.Lists.{All}

infixl 5 ◌>>=◌ ◌>>◌
abbrev pub ◌>>=◌ {ℓ κ} : {A : Type ℓ} {B : Type κ} → Option A → (A → Option B) → Option B
none >>= f = none
some a >>= f = f a

abbrev pub ◌>>◌ {ℓ} : {B : Type ℓ} → Option (Unit {0}) → Option B → Option B
m >> k = m >>= λ _. k

-- if !ok { return err }
abbrev pub guard : Bool → Option (Unit {0})
guard true = some tt
guard false = none

module _ {ℓ κ} {A : Type ℓ} {B : Type κ} where
  -- the loop that converts each element and returns at the first error
  unfoldable pub traverse : (A → Option B) → List A → Option (List B)
  traverse f [] = some []
  traverse f (x ∷ xs) = f x >>= λ y. traverse f xs >>= λ ys. some (y ∷ ys)

  pub traverse-some :
      (f : A → Option B) (g : A → B) (xs : List A)
      → All (λ x. f x ≡ some (g x)) xs
      → traverse f xs ≡ some (map g xs)
  unfolding traverse
  traverse-some f g [] h = refl
  traverse-some f g (x ∷ xs) h = rw (h.0, traverse-some f g xs h.1) refl

  -- a successful sequence is two successful calls
  pub >>=-some :
      (m : Option A) (f : A → Option B) {b : B}
      → (m >>= f) ≡ some b
      → (a : A) × (m ≡ some a) × (f a ≡ some b)
  >>=-some none f h = cc
  >>=-some (some a) f h = (a, refl, h)

module _ {ℓ} {A : Type ℓ} where
  or_else : A → Option A → A
  or_else a none = a
  or_else a (some b) = b

  pub some-injective : {a b : A} → some a ≡ some b → a ≡ b
  unfolding or_else
  some-injective {a} {b} h = ap (or_else a) h

module _ {ℓ κ} {A : Type ℓ} {B : Type κ} where
  -- if x != nil { convert }
  abbrev pub option_traverse : (A → Option B) → Option A → Option (Option B)
  option_traverse f none = some none
  option_traverse f (some a) = f a >>= λ b. some (some b)
