-- ===== src/SpireEntry/Partition.antt =====
-- Which entries of the server the reconciler manages: shouldProcessOrDeleteEntryID, splitEntries,
-- and the class of a resource.
pub mod Ownership
use spire_controller_manager.Prelude.{
  Str, codes, str_eq, has_prefix, contains_byte, Bool, true, false, not, ◌&&◌, ◌||◌, List, [], ◌∷◌,
  Option, none, some, is_empty, if◌then◌else◌,
}
use spire_controller_manager.Spiffe.{Spiffe}
use spire_controller_manager.SpireApi.Types.{Entry}
use spire_controller_manager.SpireEntry.Config.{ReconcilerConfig}

-- the switch on EntryIDPrefixCleanup
cleanup_entry_id : Option Str → Str → Bool × Bool
cleanup_entry_id none id = (false, false)
cleanup_entry_id (some cleanup_prefix) id =
    if is_empty cleanup_prefix
    then (false, not (contains_byte b'.' id))
    else if has_prefix cleanup_prefix id
    then (false, true)
    else (false, false)

module _ {sp : Spiffe} (config : ReconcilerConfig sp) where
  -- (process, delete)
  unfoldable pub should_process_or_delete_entry_id : Entry sp → Bool × Bool
  unfolding cleanup_entry_id
  should_process_or_delete_entry_id entry =
      if is_empty config.entry_id_prefix
      then (true, false)
      else if has_prefix config.entry_id_prefix entry.id
      then (true, false)
      else cleanup_entry_id config.entry_id_prefix_cleanup entry.id

  -- (currentEntries, deleteOnlyEntries)
  unfoldable pub split_entries : List (Entry sp) → List (Entry sp) × List (Entry sp)
  unfolding should_process_or_delete_entry_id
  split_entries [] = ([], [])
  split_entries (value ∷ entries) =
      let (current, delete_only) = split_entries entries in
      let (proc, del) = should_process_or_delete_entry_id value in
      (if proc then value ∷ current else current, if del then value ∷ delete_only else delete_only)

  unfoldable pub reconcile_class : Str → Bool
  reconcile_class class_name =
      is_empty class_name && config.watch_classless || str_eq class_name config.class_name
