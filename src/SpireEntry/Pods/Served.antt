-- ===== src/SpireEntry/Pods/Served.antt =====
-- The entries of ClusterSPIFFEIDs against podsWithNonFallbackApplied of reconciler.go.
use spire_controller_manager.Prelude.{
  ℕ, Str, str_eq, Bool, true, false, not, ◌&&◌, ◌||◌, List, [], ◌∷◌, Option, some, any, ◌≡◌, refl,
  ap, arith, drop, some-injective,
}
use spire_controller_manager.SpireApi.Types.{Selector}
use spire_controller_manager.SpireEntry.Preference.{ByRef, static_entry, spiffe_id}
use spire_controller_manager.SpireEntry.RenderCache.Uncached.{pod_selector}

pub pod_selector-injective : (u v : Str) → some (pod_selector u) ≡ some (pod_selector v) → u ≡ v
pod_selector-injective u v e = ap (λ s. drop 8 s.value) (some-injective e)

or_true : (b : Bool) → (b || true) ≡ true
or_true true = refl
or_true false = refl

pub and_eq_false : (a b : Bool) → b ≡ false → (a && b) ≡ false
and_eq_false a b e = ground (arith, e)

pub and_eq_true : (a b : Bool) → a ≡ true → b ≡ true → (a && b) ≡ true
and_eq_true a b e f = ground (arith, e, f)

-- `is_fallback` tells whether the ClusterSPIFFEID at a position is a fallback.
-- declared by a static entry
abbrev pub IsStatic : ByRef → Type 0
IsStatic (static_entry i) = Unit
IsStatic (spiffe_id i) = ⊥

module _ (is_fallback : ℕ → Bool) where
  -- an entry of a ClusterSPIFFEID that is no fallback, and its pod is among those applied
  unfoldable pub First : List Str → ByRef → Option Selector → Type 0
  First applied (static_entry i) s = Unit
  First applied (spiffe_id i) s =
      (is_fallback i ≡ false)
      × ((uid : Str) → s ≡ some (pod_selector uid) → any (str_eq uid) applied ≡ true)

  pub IsStatic-First : (r : ByRef) (s : Option Selector) → IsStatic r → First [] r s
  unfolding First
  IsStatic-First (static_entry i) s h = tt
  IsStatic-First (spiffe_id i) s h = absurd h

  -- an entry of a fallback exactly if its pod is not among those applied
  abbrev pub Served : List Str → ByRef → Option Selector → Type 0
  Served applied (static_entry i) s = Unit
  Served applied (spiffe_id i) s =
      (uid : Str) → s ≡ some (pod_selector uid) → any (str_eq uid) applied ≡ not (is_fallback i)

  pub First-Served :
      (applied : List Str) (r : ByRef) (s : Option Selector)
      → First applied r s
      → Served applied r s
  unfolding First
  First-Served applied (static_entry i) s h = tt
  First-Served applied (spiffe_id i) s h = λ uid e. rw h.0 (h.1 uid e)

  pub First-more :
      (u : Str) (applied : List Str) (r : ByRef) (s : Option Selector)
      → First applied r s
      → First (u ∷ applied) r s
  unfolding First any
  First-more u applied (static_entry i) s h = tt
  First-more u applied (spiffe_id i) s h = (h.0, λ uid e. rw (h.1 uid e) (or_true (str_eq uid u)))
