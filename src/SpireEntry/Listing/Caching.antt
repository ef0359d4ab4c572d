-- ===== src/SpireEntry/Listing/Caching.antt =====
-- The cached list answers as the server's list did.
use spire_controller_manager.Prelude.{
  ◌+◌, Str, true, false, List, ◌++◌, Option, none, some, ◌≡◌, refl, Perm,
}
use spire_controller_manager.Prelude.Assoc.{Assoc}
use spire_controller_manager.Prelude.Int.{ℤ, ltb_ℤ, ◌+ℤ◌}
use spire_controller_manager.Spiffe.{Spiffe}
use spire_controller_manager.SpireApi.Types.{Entry}
use spire_controller_manager.SpireEntry.Config.{ReconcilerConfig}
use spire_controller_manager.SpireEntry.Client.{EntryClient}
use spire_controller_manager.SpireEntry.ListCache.{EntryListCache, fresh, snapshot, replace}
use spire_controller_manager.SpireEntry.ListCache.Contents.{snapshot-replace, fresh-replace}
use spire_controller_manager.SpireEntry.Partition.{split_entries}
use spire_controller_manager.SpireEntry.Partition.Ownership.{
  DistinctIds, split_entries-again, split_entries-perm, split_entries-DistinctIds,
}
use spire_controller_manager.SpireEntry.Listing.{
  EntryReconciler, list_entries, filter_key_of, serves, listed, replace_cache, cached,
}

-- Both lists of the answer, up to the order of entries; an error is like an error only.
abbrev pub SameAnswer : {A : Type 0} → Option (List A × List A) → Option (List A × List A) → Type 0
SameAnswer none none = Unit
SameAnswer (some p) (some q) = Perm p.0 q.0 × Perm p.1 q.1
SameAnswer _ _ = ⊥

module _ {sp : Spiffe} {W : Type 0} (config : ReconcilerConfig sp) (client : EntryClient sp W)
    (range : Assoc (Entry sp) → Assoc (Entry sp))
    (range_perm : (m : Assoc (Entry sp)) → Perm (range m) m) where
  answer-snapshot :
      (later : ℤ) (key : Str) (es : List (Entry sp)) (c : EntryListCache sp)
      → DistinctIds es
      → let parts = split_entries config es in
        let again =
          split_entries config (snapshot range (replace later key (parts.0 ++ parts.1) c)) in
        Perm again.0 parts.0 × Perm again.1 parts.1
  answer-snapshot later key es c d =
      let parts = split_entries config es in
      let perm = split_entries-perm config _ _ (
        snapshot-replace range range_perm later key (parts.0 ++ parts.1) c
          (split_entries-DistinctIds config es d)) in
      rw split_entries-again at perm

  list_entries-miss :
      (now later : ℤ) (hints : List Str) (r : EntryReconciler sp) (c : EntryListCache sp) (w w' : W)
      (es : List (Entry sp))
      → r.entry_cache ≡ some c
      → fresh now c (filter_key_of hints) ≡ false
      → client.list_entries hints w ≡ (some es, w')
      → let parts = split_entries config es in
        list_entries config client range now later hints r w ≡ (
          some parts,
          record r {
            entry_cache = some (replace later (filter_key_of hints) (parts.0 ++ parts.1) c);
            entry_list_server_calls = r.entry_list_server_calls + 1;
          },
          w',
        )
  unfolding list_entries serves listed replace_cache
  list_entries-miss now later hints r c w w' es ec ef el = rw (ec, ef, el)

  list_entries-hit :
      (now later : ℤ) (hints : List Str) (r : EntryReconciler sp) (c : EntryListCache sp) (w : W)
      → r.entry_cache ≡ some c
      → fresh now c (filter_key_of hints) ≡ true
      → list_entries config client range now later hints r w ≡ (
        some (split_entries config (snapshot range c)),
        record r { entry_list_cache_hits = r.entry_list_cache_hits + 1 },
        w,
      )
  unfolding list_entries serves cached
  list_entries-hit now later hints r c w ec ef = rw (ec, ef)

  -- A list that misses the cache and succeeds with entries of distinct IDs makes the next list with
  -- the same hints, before the reload is due, give the same answer without a call of the server.
  pub list_entries-cached :
      (now later now' later' : ℤ) (hints : List Str) (r : EntryReconciler sp)
      (c : EntryListCache sp) (w w' : W) (es : List (Entry sp))
      → r.entry_cache ≡ some c
      → fresh now c (filter_key_of hints) ≡ false
      → client.list_entries hints w ≡ (some es, w')
      → DistinctIds es
      → ltb_ℤ now' (later +ℤ c.reload_after) ≡ true
      → let first = list_entries config client range now later hints r w in
        let second = list_entries config client range now' later' hints first.1 first.2 in
        SameAnswer second.0 first.0
        × (second.2 ≡ first.2)
        × (second.1.entry_list_server_calls ≡ first.1.entry_list_server_calls)
  list_entries-cached now later now' later' hints r c w w' es ec ef el d due =
      let key = filter_key_of hints in
      let parts = split_entries config es in
      let stored = record r {
        entry_cache = some (replace later key (parts.0 ++ parts.1) c);
        entry_list_server_calls = r.entry_list_server_calls + 1;
      } in
      rw (list_entries-miss now later hints r c w w' es ec ef el) (
        rw
          (list_entries-hit now' later' hints stored (replace later key (parts.0 ++ parts.1) c) w'
            refl (fresh-replace now' later key (parts.0 ++ parts.1) c due))
          (answer-snapshot later key es c d, refl, refl))
