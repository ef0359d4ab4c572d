-- ===== src/SpireEntry/Listing.antt =====
-- The entryReconciler's own state, and listEntries and entryListHints over it.
pub mod Caching
use spire_controller_manager.Prelude.{
  ℕ, suc, ◌+◌, Str, str_eq, str_lt, join, Bool, true, false, List, [], ◌∷◌, ◌++◌, ◌&&◌, Option,
  none, some, map, any, is_empty, uniq, if◌then◌else◌,
}
use spire_controller_manager.Prelude.Assoc.{Assoc}
use spire_controller_manager.Prelude.Sort.{sort}
use spire_controller_manager.Prelude.Int.{ℤ}
use spire_controller_manager.Spiffe.{Spiffe}
use spire_controller_manager.SpireApi.Types.{Entry, FieldSet}
use spire_controller_manager.SpireEntry.Config.{ReconcilerConfig}
use spire_controller_manager.SpireEntry.Client.{EntryClient}
use spire_controller_manager.SpireEntry.ListCache.{EntryListCache, fresh, snapshot, replace}
use spire_controller_manager.SpireEntry.Partition.{split_entries}

-- entryReconciler without its configuration and the render cache; the two counters are those of
-- promCounter that listEntries increments.
pub record EntryReconciler (sp : Spiffe) : Type 0 where
  pub unsupported_fields : FieldSet
  pub next_get_unsupported_fields : ℤ
  pub entry_cache : Option (EntryListCache sp)
  pub entry_list_cache_hits : ℕ
  pub entry_list_server_calls : ℕ

-- entryListHints over the hints of the listed ClusterSPIFFEIDs and ClusterStaticEntries; nil is []
unfoldable pub entry_list_hints : Bool → List Str → List Str → List Str
unfolding uniq sort any
entry_list_hints enabled spiffe_id_hints static_entry_hints =
    if enabled
    then (let hints = spiffe_id_hints ++ static_entry_hints in
        if any is_empty hints then [] else sort str_lt (uniq hints))
    else []

-- strings.Join(hints, "\x00")
unfoldable pub filter_key_of : List Str → Str
unfolding join
filter_key_of hints = join hints (0 ∷ [])

module _ {sp : Spiffe} {W : Type 0} (config : ReconcilerConfig sp) (client : EntryClient sp W)
    (range : Assoc (Entry sp) → Assoc (Entry sp)) where
  -- r.entryCache != nil && r.entryCache.fresh(filterKey)
  serves : ℤ → Str → Option (EntryListCache sp) → Bool
  serves now key none = false
  serves now key (some c) = fresh now c key

  cached : Option (EntryListCache sp) → List (Entry sp)
  cached none = []
  cached (some c) = snapshot range c

  replace_cache :
      ℤ → Str → List (Entry sp) → Option (EntryListCache sp) → Option (EntryListCache sp)
  replace_cache now key entries none = none
  replace_cache now key entries (some c) = some (replace now key entries c)

  -- the part behind the call of ListEntries
  listed :
      ℤ
      → Str
      → EntryReconciler sp
      → Option (List (Entry sp)) × W
      → Option (List (Entry sp) × List (Entry sp)) × EntryReconciler sp × W
  unfolding split_entries replace_cache
  listed later key r (none, w) = (none, r, w)
  listed later key r (some entries, w) =
      let parts = split_entries config entries in
      (
        some parts,
        record r { entry_cache = replace_cache later key (parts.0 ++ parts.1) r.entry_cache },
        w,
      )

  -- `now` is the time that fresh reads, and `later` the one that replace reads.
  unfoldable pub list_entries :
      ℤ
      → ℤ
      → List Str
      → EntryReconciler sp
      → W
      → Option (List (Entry sp) × List (Entry sp)) × EntryReconciler sp × W
  unfolding serves cached listed fresh snapshot filter_key_of
  list_entries now later hints r w =
      let key = filter_key_of hints in
      if serves now key r.entry_cache
      then (
        some (split_entries config (cached r.entry_cache)),
        record r { entry_list_cache_hits = r.entry_list_cache_hits + 1 },
        w,
      )
      else listed later key (record r { entry_list_server_calls = r.entry_list_server_calls + 1 })
          (client.list_entries hints w)
