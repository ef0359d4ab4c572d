-- ===== src/SpireEntry/State.antt =====
-- entriesState: the current and the declared entries, by key.
use spire_controller_manager.Prelude.{Str, List, [], ◌∷◌, ◌++◌, Option, none, some}
use spire_controller_manager.Prelude.Assoc.{Assoc, lookup, insert}
use spire_controller_manager.Spiffe.{Spiffe}
use spire_controller_manager.SpireApi.Types.{Entry}
use spire_controller_manager.SpireEntry.Key.{make_entry_key}
use spire_controller_manager.SpireEntry.Preference.{ByObject, DeclaredEntry}

pub record EntryState (sp : Spiffe) : Type 0 where
  pub current : List (Entry sp)
  pub declared : List (DeclaredEntry sp)

abbrev pub EntriesState : Spiffe → Type 0
EntriesState sp = Assoc (EntryState sp)

module _ {sp : Spiffe} (hash : Str → Str) where
  unfoldable pub or_empty : Option (EntryState sp) → EntryState sp
  or_empty none = record { current = []; declared = [] }
  or_empty (some s) = s

  -- stateFor: the state of the entry's key, made if it is missing
  unfoldable pub state_for : EntriesState sp → Entry sp → EntryState sp
  unfolding or_empty lookup
  state_for es entry = or_empty (lookup (make_entry_key sp hash entry) es)

  unfoldable pub add_current : Entry sp → EntriesState sp → EntriesState sp
  unfolding state_for insert
  add_current entry es =
      let s = state_for es entry in
      insert (make_entry_key sp hash entry) (record s { current = s.current ++ entry ∷ [] }) es

  unfoldable pub add_declared : Entry sp → ByObject → EntriesState sp → EntriesState sp
  unfolding state_for insert
  add_declared entry by es =
      let s = state_for es entry in
      insert (make_entry_key sp hash entry)
        (record s { declared = s.declared ++ record { entry = entry; by = by } ∷ [] }) es

  -- for _, entry := range currentEntries { state.AddCurrent(entry) }
  unfoldable pub add_all_current : List (Entry sp) → EntriesState sp → EntriesState sp
  unfolding add_current
  add_all_current [] es = es
  add_all_current (e ∷ rest) es = add_all_current rest (add_current e es)
