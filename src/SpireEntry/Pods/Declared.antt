-- ===== src/SpireEntry/Pods/Declared.antt =====
-- What holds of every declared entry of the entriesState of reconciler.go.
use spire_controller_manager.Prelude.{
  Str, str_eq, List, [], ◌∷◌, inl, inr, Bool-cases, All, All-append,
}
use spire_controller_manager.Prelude.Assoc.{lookup, insert}
use spire_controller_manager.Spiffe.{Spiffe}
use spire_controller_manager.SpireApi.Types.{Entry}
use spire_controller_manager.SpireEntry.Preference.{ByObject, DeclaredEntry}
use spire_controller_manager.SpireEntry.Key.{make_entry_key}
use spire_controller_manager.SpireEntry.State.{
  EntriesState, EntryState, add_declared, state_for, or_empty,
}

-- every declared entry of a state, whatever its key
abbrev pub EveryDeclared : {sp : Spiffe} → (DeclaredEntry sp → Type 0) → EntriesState sp → Type 0
EveryDeclared P es = All (λ p. All P (p.1).declared) es

module _ {sp : Spiffe} (P : DeclaredEntry sp → Type 0) (hash : Str → Str) where
  lookup-every :
      (key : Str) (es : EntriesState sp)
      → EveryDeclared P es
      → All P (or_empty hash (lookup key es)).declared
  unfolding or_empty lookup
  lookup-every key [] a = tt
  lookup-every key ((j, s) ∷ es) a = elim (Bool-cases (str_eq j key)) [
    | inl y ↦ rw y a.0
    | inr n ↦ rw n (lookup-every key es a.1)
  ]

  insert-every :
      (key : Str) (s : EntryState sp) (es : EntriesState sp)
      → All P s.declared
      → EveryDeclared P es
      → EveryDeclared P (insert key s es)
  unfolding insert
  insert-every key s [] p a = (p, tt)
  insert-every key s ((j, t) ∷ es) p a = elim (Bool-cases (str_eq j key)) [
    | inl y ↦ rw y (p, a.1)
    | inr n ↦ rw n (a.0, insert-every key s es p a.1)
  ]

  pub add_declared-every :
      (e : Entry sp) (by : ByObject) (es : EntriesState sp)
      → P record { entry = e; by = by }
      → EveryDeclared P es
      → EveryDeclared P (add_declared hash e by es)
  unfolding add_declared state_for
  add_declared-every e by es p a =
      insert-every (make_entry_key sp hash e) _ es
        (All-append P _ _ (lookup-every (make_entry_key sp hash e) es a) (p, tt)) a

pub All-map {ℓ κ μ} :
    {A : Type ℓ} {P : A → Type κ} {Q : A → Type μ}
    → ((x : A) → P x → Q x)
    → (xs : List A) → All P xs
    → All Q xs
All-map f [] a = tt
All-map f (x ∷ xs) a = (f x a.0, All-map f xs a.1)

pub every_map :
    {sp : Spiffe} {P Q : DeclaredEntry sp → Type 0}
    → ((d : DeclaredEntry sp) → P d → Q d)
    → (es : EntriesState sp) → EveryDeclared P es
    → EveryDeclared Q es
every_map f [] a = tt
every_map f (s ∷ es) a = (All-map f _ a.0, every_map f es a.1)
