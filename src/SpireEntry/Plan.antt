-- ===== src/SpireEntry/Plan.antt =====
-- The loop of reconcile over the state map: what to create, update and delete.
pub mod Surplus
pub mod Carried
pub mod Convergence
use spire_controller_manager.Prelude.{
  ℕ, ◌+◌, Str, Bool, true, false, not, ◌&&◌, List, [], ◌∷◌, ◌++◌, is_empty, if◌then◌else◌,
}
use spire_controller_manager.Spiffe.{Spiffe}
use spire_controller_manager.SpireApi.Types.{Entry, FieldSet}
use spire_controller_manager.SpireEntry.Fields.{outdated_entry_fields}
use spire_controller_manager.SpireEntry.JoinToken.{filter_join_token_entries}
use spire_controller_manager.SpireEntry.Preference.{DeclaredEntry, sort_declared}
use spire_controller_manager.SpireEntry.Status.{
  Statuses, increment_entries_to_set, increment_entries_masked,
}
use spire_controller_manager.SpireEntry.State.{EntryState}

-- The three lists, the statuses, and how many UUIDs have been drawn.
pub record Plan (sp : Spiffe) : Type 0 where
  pub to_delete : List (Entry sp)
  pub to_create : List (DeclaredEntry sp)
  pub to_update : List (DeclaredEntry sp)
  pub statuses : Statuses
  pub drawn : ℕ

abbrev pub empty_plan : {sp : Spiffe} → Statuses → ℕ → Plan sp
empty_plan statuses drawn = record {
  to_delete = [];
  to_create = [];
  to_update = [];
  statuses = statuses;
  drawn = drawn;
}

module _ {sp : Spiffe} where
  -- for _, otherEntry := range s.Declared[1:]
  mask_all : List (DeclaredEntry sp) → Statuses → Statuses
  mask_all [] h = h
  mask_all (d ∷ rest) h = mask_all rest (increment_entries_masked d.by.ref h)

  -- the preferred entry is to be set, the others are masked
  count_declared : DeclaredEntry sp → List (DeclaredEntry sp) → Plan sp → Plan sp
  unfolding mask_all
  count_declared d others p = record p {
    statuses = mask_all others (increment_entries_to_set d.by.ref p.statuses);
  }

  set_id : Str → DeclaredEntry sp → DeclaredEntry sp
  set_id id d = record d { entry = record d.entry { id = id } }

  delete_rest : List (Entry sp) → Plan sp → Plan sp
  delete_rest current p = record p {
    to_delete = p.to_delete ++ filter_join_token_entries sp current;
  }

-- `prefix` is EntryIDPrefix, `unsupported` the unsupported fields, and `uuid` the n-th new UUID.
module _ {sp : Spiffe} (prefix : Str) (unsupported : FieldSet) (uuid : ℕ → Str) where
  create : DeclaredEntry sp → Plan sp → Plan sp
  unfolding set_id
  create d p =
      if is_empty d.entry.id && not (is_empty prefix)
      then record p {
        to_create = p.to_create ++ set_id (prefix ++ uuid p.drawn) d ∷ [];
        drawn = p.drawn + 1;
      }
      else record p { to_create = p.to_create ++ d ∷ [] }

  update : DeclaredEntry sp → Entry sp → Plan sp → Plan sp
  unfolding set_id
  update d current p =
      let preferred = set_id current.id d in
      if not (is_empty (outdated_entry_fields sp preferred.entry current unsupported))
      then record p { to_update = p.to_update ++ preferred ∷ [] }
      else p

  -- the body of the loop, behind the sort
  plan_sorted : List (DeclaredEntry sp) → List (Entry sp) → Plan sp → Plan sp
  unfolding create update count_declared delete_rest
  plan_sorted [] current p = delete_rest current p
  plan_sorted (d ∷ others) [] p = delete_rest [] (create d (count_declared d others p))
  plan_sorted (d ∷ others) (c ∷ rest) p = delete_rest rest (update d c (count_declared d others p))

  unfoldable pub plan_state : EntryState sp → Plan sp → Plan sp
  unfolding plan_sorted
  plan_state s p = plan_sorted (sort_declared s.declared) s.current p

  -- for _, s := range state
  unfoldable pub plan_all : List (EntryState sp) → Plan sp → Plan sp
  unfolding plan_state
  plan_all [] p = p
  plan_all (s ∷ rest) p = plan_all rest (plan_state s p)
