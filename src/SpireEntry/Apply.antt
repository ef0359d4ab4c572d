-- ===== src/SpireEntry/Apply.antt =====
-- createEntries, updateEntries and deleteEntries: the calls of the server, what they do to the mirror
-- of the entries, and what they record in the statuses.
pub mod Coherence
pub mod Recorded
use spire_controller_manager.Prelude.{
  ℕ, Str, Bool, true, false, List, [], ◌∷◌, Option, none, some, map, ◌==◌, if◌then◌else◌,
}
use spire_controller_manager.Spiffe.{Spiffe}
use spire_controller_manager.SpireApi.Types.{
  Entry, Status, code_ok, code_not_found, code_already_exists,
}
use spire_controller_manager.SpireEntry.Client.{EntryClient}
use spire_controller_manager.SpireEntry.ListCache
use spire_controller_manager.SpireEntry.ListCache.{EntryListCache}
use spire_controller_manager.SpireEntry.Preference.{DeclaredEntry}
use spire_controller_manager.SpireEntry.Status.{
  Statuses, increment_entry_success, increment_entry_failures,
}

-- what the three functions change
pub record Applied (sp : Spiffe) : Type 0 where
  pub cache : Option (EntryListCache sp)
  pub statuses : Statuses

module _ {sp : Spiffe} where
  -- if r.entryCache != nil { f }
  on_cache :
      (EntryListCache sp → EntryListCache sp)
      → Option (EntryListCache sp)
      → Option (EntryListCache sp)
  on_cache f none = none
  on_cache f (some c) = some (f c)

  fail_all : List (DeclaredEntry sp) → Statuses → Statuses
  fail_all [] h = h
  fail_all (d ∷ ds) h = fail_all ds (increment_entry_failures d.by.ref h)

  -- err != nil, of create and update
  failed : List (DeclaredEntry sp) → Applied sp → Applied sp
  failed ds a = record a {
    statuses = fail_all ds a.statuses;
    cache = on_cache ListCache.invalidate a.cache;
  }

  created_one : DeclaredEntry sp → Status → Applied sp → Applied sp
  created_one d status a =
      if status.code == code_ok
      then record a {
        statuses = increment_entry_success d.by.ref a.statuses;
        cache = on_cache (ListCache.upsert d.entry) a.cache;
      }
      else record a {
        statuses = increment_entry_failures d.by.ref a.statuses;
        cache =
            if status.code == code_already_exists
            then on_cache ListCache.invalidate a.cache
            else a.cache;
      }

  updated_one : DeclaredEntry sp → Status → Applied sp → Applied sp
  updated_one d status a =
      if status.code == code_ok
      then record a { cache = on_cache (ListCache.upsert d.entry) a.cache }
      else record a {
        statuses = increment_entry_failures d.by.ref a.statuses;
        cache =
            if status.code == code_not_found
            then on_cache (λ c. ListCache.invalidate (ListCache.drop d.entry.id c)) a.cache
            else a.cache;
      }

  deleted_one : Entry sp → Status → Applied sp → Applied sp
  deleted_one e status a =
      if status.code == code_ok
      then record a { cache = on_cache (ListCache.drop e.id) a.cache }
      else record a {
        cache =
            if status.code == code_not_found
            then on_cache (λ c. ListCache.invalidate (ListCache.drop e.id c)) a.cache
            else a.cache;
      }

  -- for i, x := range xs { if i >= len(statuses) { break }; … statuses[i] … }
  each :
      {X : Type 0}
      → (X → Status → Applied sp → Applied sp)
      → List X
      → List Status
      → Applied sp
      → Applied sp
  each f [] statuses a = a
  each f (x ∷ xs) [] a = a
  each f (x ∷ xs) (s ∷ statuses) a = each f xs statuses (f x s a)

  entries_from_declared : List (DeclaredEntry sp) → List (Entry sp)
  entries_from_declared ds = map (λ d. d.entry) ds

  ids_from_entries : List (Entry sp) → List Str
  ids_from_entries es = map (λ e. e.id) es

  unfoldable pub after_create :
      List (DeclaredEntry sp) → Option (List Status) → Applied sp → Applied sp
  unfolding failed created_one each on_cache fail_all
  after_create ds none a = failed ds a
  after_create ds (some statuses) a = each created_one ds statuses a

  unfoldable pub after_update :
      List (DeclaredEntry sp) → Option (List Status) → Applied sp → Applied sp
  unfolding failed updated_one each on_cache fail_all
  after_update ds none a = failed ds a
  after_update ds (some statuses) a = each updated_one ds statuses a

  unfoldable pub after_delete : List (Entry sp) → Option (List Status) → Applied sp → Applied sp
  unfolding deleted_one each on_cache
  after_delete es none a = record a { cache = on_cache ListCache.invalidate a.cache }
  after_delete es (some statuses) a = each deleted_one es statuses a

module _ {sp : Spiffe} {W : Type 0} (client : EntryClient sp W) where
  unfoldable pub create_entries : List (DeclaredEntry sp) → Applied sp → W → Applied sp × W
  unfolding after_create entries_from_declared
  create_entries ds a w =
      let (reply, w') = client.create_entries (entries_from_declared ds) w in
      (after_create ds reply a, w')

  unfoldable pub update_entries : List (DeclaredEntry sp) → Applied sp → W → Applied sp × W
  unfolding after_update entries_from_declared
  update_entries ds a w =
      let (reply, w') = client.update_entries (entries_from_declared ds) w in
      (after_update ds reply a, w')

  unfoldable pub delete_entries : List (Entry sp) → Applied sp → W → Applied sp × W
  unfolding after_delete ids_from_entries
  delete_entries es a w =
      let (reply, w') = client.delete_entries (ids_from_entries es) w in
      (after_delete es reply a, w')
