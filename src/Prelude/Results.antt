-- ===== src/Prelude/Results.antt =====
-- Calls that fail with an error of their own kind, in sequence.
use mathlib.Core.Path.{◌≡◌, refl, ap}
use mathlib.Core.Bool.{Bool, true, false}
use mathlib.Core.Option.{Option, none, some}
use mathlib.Core.List.{List, [], ◌∷◌}

pub data Result {ℓ κ} (E : Type ℓ) (A : Type κ) : Type (ℓ ⊔ κ) where
  ok : A → Result E A
  err : E → Result E A

infixl 5 ◌>>=◌ ◌>>◌
abbrev pub ◌>>=◌ {ℓ κ μ} :
    {E : Type ℓ} {A : Type κ} {B : Type μ} → Result E A → (A → Result E B) → Result E B
ok a >>= f = f a
err e >>= f = err e

abbrev pub ◌>>◌ {ℓ κ} : {E : Type ℓ} {B : Type κ} → Result E (Unit {0}) → Result E B → Result E B
m >> k = m >>= λ _. k

-- if b { return err }
abbrev pub fail_if {ℓ} : {E : Type ℓ} → Bool → E → Result E (Unit {0})
fail_if true e = err e
fail_if false e = ok tt

-- the value of a call that returned one, or the error
abbrev pub or_fail {ℓ κ} : {E : Type ℓ} {A : Type κ} → Option A → E → Result E A
or_fail none e = err e
or_fail (some a) e = ok a

module _ {ℓ κ μ} {E : Type ℓ} {A : Type κ} {B : Type μ} where
  -- a successful sequence is two successful calls
  pub >>=-ok :
      (m : Result E A) (f : A → Result E B) {b : B}
      → (m >>= f) ≡ ok b
      → (a : A) × (m ≡ ok a) × (f a ≡ ok b)
  >>=-ok (ok a) f h = (a, refl, h)
  >>=-ok (err e) f h = cc

module _ {ℓ κ} {E : Type ℓ} {A : Type κ} where
  -- the loop that converts each element and returns at the first error
  unfoldable pub try_all {μ} : {B : Type μ} → (A → Result E B) → List A → Result E (List B)
  try_all f [] = ok []
  try_all f (x ∷ xs) = f x >>= λ y. try_all f xs >>= λ ys. ok (y ∷ ys)

  pub fail_if-ok :
      (b : Bool) (e : E) {m : Result E A} {a : A}
      → (fail_if b e >> m) ≡ ok a
      → (b ≡ false) × (m ≡ ok a)
  fail_if-ok true e h = cc
  fail_if-ok false e h = (refl, h)

  unfoldable pub value_or : A → Result E A → A
  value_or a (ok b) = b
  value_or a (err e) = a

  pub ok-injective : {a b : A} → ◌≡◌ {A = Result E A} (ok a) (ok b) → a ≡ b
  unfolding value_or
  ok-injective {a} {b} h = ap (value_or a) h

-- fmt.Errorf("...: %w", err)
abbrev pub with_error {ℓ κ μ} :
    {E : Type ℓ} {F : Type κ} {A : Type μ} → (E → F) → Result E A → Result F A
with_error f (ok a) = ok a
with_error f (err e) = err (f e)
