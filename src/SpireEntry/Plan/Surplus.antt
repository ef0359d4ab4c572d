-- ===== src/SpireEntry/Plan/Surplus.antt =====
-- What one pass plans: which entries it deletes, and the IDs of those that it creates.
use spire_controller_manager.Prelude.{
  ℕ, Str, has_prefix, has_prefix-append, Bool, true, false, not, List, [], ◌∷◌, ◌++◌, is_empty, ◌≡◌,
  refl, sym, ap, ◌∙◌, arith, All, All-append, keep, append_assoc, append-nil,
}
use spire_controller_manager.Spiffe.{Spiffe}
use spire_controller_manager.SpireApi.Types.{Entry, FieldSet}
use spire_controller_manager.SpireEntry.JoinToken.{is_join_token_entry, filter_join_token_entries}
use spire_controller_manager.SpireEntry.Preference.{DeclaredEntry, sort_declared}
use spire_controller_manager.SpireEntry.Preference.Order.{
  is_empty-sort_declared, sort_declared-keeps,
}
use spire_controller_manager.SpireEntry.State.{EntryState}
use spire_controller_manager.SpireEntry.Plan.{Plan, update, plan_sorted, plan_state, plan_all}

module _ {sp : Spiffe} where
  -- The current entries that no declared entry takes over; the flag says that none is declared.
  abbrev pub unclaimed : Bool → List (Entry sp) → List (Entry sp)
  unclaimed true current = current
  unclaimed false [] = []
  unclaimed false (c ∷ rest) = rest

  -- What a pass is to delete: of each state all current entries, but the first if an entry is
  -- declared, and no entry of a join token.
  pub surplus : List (EntryState sp) → List (Entry sp)
  surplus [] = []
  surplus (s ∷ ss) =
      keep (λ e. not (is_join_token_entry sp e)) (unclaimed (is_empty s.declared) s.current)
      ++ surplus ss

  -- the ID of an entry that a pass may send: the manager's own
  abbrev pub HasPrefix : Str → DeclaredEntry sp → Type 0
  HasPrefix prefix d = has_prefix prefix d.entry.id ≡ true

  -- a declared entry as it was rendered, with no ID
  abbrev pub HasNoId : DeclaredEntry sp → Type 0
  HasNoId d = d.entry.id ≡ []

module _ {sp : Spiffe} (prefix : Str) (unsupported : FieldSet) (uuid : ℕ → Str) where
  deletes-sorted :
      (ds : List (DeclaredEntry sp)) (current : List (Entry sp)) (p : Plan sp)
      → (plan_sorted prefix unsupported uuid ds current p).to_delete
        ≡ p.to_delete ++ filter_join_token_entries sp (unclaimed (is_empty ds) current)
  unfolding plan_sorted
  deletes-sorted [] current p = refl
  deletes-sorted (d ∷ ds) [] p = ground arith
  deletes-sorted (d ∷ ds) (c ∷ rest) p = ground arith

  deletes-state :
      (s : EntryState sp) (p : Plan sp)
      → (plan_state prefix unsupported uuid s p).to_delete
        ≡ p.to_delete ++ filter_join_token_entries sp (unclaimed (is_empty s.declared) s.current)
  unfolding plan_state
  deletes-state s p =
      deletes-sorted (sort_declared s.declared) s.current p
      ∙ ap (λ b. p.to_delete ++ filter_join_token_entries sp (unclaimed b s.current))
          (is_empty-sort_declared s.declared)

  -- Exactly the surplus is deleted, whatever is created or updated in the same pass.
  pub plan_all-deletes :
      (ss : List (EntryState sp)) (p : Plan sp)
      → (plan_all prefix unsupported uuid ss p).to_delete ≡ p.to_delete ++ surplus ss
  unfolding plan_all surplus filter_join_token_entries
  plan_all-deletes [] p = sym (append-nil p.to_delete)
  plan_all-deletes (s ∷ ss) p =
      plan_all-deletes ss (plan_state prefix unsupported uuid s p)
      ∙ (ap (λ l. l ++ surplus ss) (deletes-state s p) ∙ append_assoc p.to_delete _ _)

  creates-update :
      (d : DeclaredEntry sp) (c : Entry sp) (p : Plan sp)
      → (update prefix unsupported uuid d c p).to_create ≡ p.to_create
  unfolding update
  creates-update d c p = ground arith

  creates-sorted :
      (ds : List (DeclaredEntry sp)) (current : List (Entry sp)) (p : Plan sp)
      → is_empty prefix ≡ false
      → All HasNoId ds
      → All (HasPrefix prefix) p.to_create
      → All (HasPrefix prefix) (plan_sorted prefix unsupported uuid ds current p).to_create
  unfolding plan_sorted
  creates-sorted [] current p n h a = a
  creates-sorted (d ∷ ds) [] p n h a =
      rw (h.0, n)
        (All-append (HasPrefix prefix) p.to_create _ a
          (has_prefix-append prefix (uuid p.drawn), tt))
  creates-sorted (d ∷ ds) (c ∷ rest) p n h a = rw (creates-update d c _) a

  -- Where the manager has a prefix, every entry that a pass creates has an ID with the prefix, so
  -- the next list takes it for the manager's own.
  pub plan_all-creates_own :
      (ss : List (EntryState sp)) (p : Plan sp)
      → is_empty prefix ≡ false
      → All (λ s. All HasNoId s.declared) ss
      → All (HasPrefix prefix) p.to_create
      → All (HasPrefix prefix) (plan_all prefix unsupported uuid ss p).to_create
  unfolding plan_all plan_state
  plan_all-creates_own [] p n h a = a
  plan_all-creates_own (s ∷ ss) p n h a =
      plan_all-creates_own ss (plan_state prefix unsupported uuid s p) n h.1 (
        creates-sorted (sort_declared s.declared) s.current p n
          (sort_declared-keeps HasNoId s.declared h.0) a)
