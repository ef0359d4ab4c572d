-- ===== src/SpireEntry/ListCache.antt =====
-- entry_list_cache.go: the mirror of the server's entries, keyed by entry ID. A time is its number of
-- nanoseconds since 1970. The order in which `range` walks a map is the parameter of `snapshot`.
pub mod Contents
use spire_controller_manager.Prelude.{
  Str, str_eq, Bool, true, false, List, [], ◌∷◌, ◌&&◌, Option, none, some, ◌^◌, ◌*◌, ◌-◌,
}
use spire_controller_manager.Prelude.Assoc.{Assoc, insert, remove}
use spire_controller_manager.Prelude.Int.{ℤ, negsuc, ltb_ℤ, ◌+ℤ◌}
use spire_controller_manager.Spiffe.{Spiffe}
use spire_controller_manager.SpireApi.Types.{Entry}

-- time.Time{}: 1 January of the year 1
abbrev pub zero_time : ℤ
zero_time = negsuc (62135596800 * 10 ^ 9 - 1)

pub record EntryListCache (sp : Spiffe) : Type 0 where
  pub reload_after : ℤ
  pub entries : Option (Assoc (Entry sp))
  pub next_reload : ℤ
  pub filter_key : Str

-- the values of a map, in the order of its pairs
pub values {ℓ} : {V : Type ℓ} → Assoc V → List V
values [] = []
values ((k, v) ∷ m) = v ∷ values m

module _ {sp : Spiffe} where
  is_loaded : Option (Assoc (Entry sp)) → Bool
  is_loaded none = false
  is_loaded (some m) = true

  unfoldable pub fresh : ℤ → EntryListCache sp → Str → Bool
  unfolding is_loaded
  fresh now c filter_key =
      is_loaded c.entries && str_eq c.filter_key filter_key && ltb_ℤ now c.next_reload

  snapshot_of : (Assoc (Entry sp) → Assoc (Entry sp)) → Option (Assoc (Entry sp)) → List (Entry sp)
  snapshot_of range none = []
  snapshot_of range (some m) = values (range m)

  unfoldable pub snapshot :
      (Assoc (Entry sp) → Assoc (Entry sp)) → EntryListCache sp → List (Entry sp)
  unfolding snapshot_of values
  snapshot range c = snapshot_of range c.entries

  -- for _, entry := range entries { c.entries[entry.ID] = entry }
  store_all : List (Entry sp) → Assoc (Entry sp) → Assoc (Entry sp)
  store_all [] m = m
  store_all (e ∷ es) m = store_all es (insert e.id e m)

  unfoldable pub replace : ℤ → Str → List (Entry sp) → EntryListCache sp → EntryListCache sp
  unfolding store_all
  replace now filter_key entries c = record c {
    entries = some (store_all entries []);
    filter_key = filter_key;
    next_reload = now +ℤ c.reload_after;
  }

  pub upsert_in : Entry sp → Option (Assoc (Entry sp)) → Option (Assoc (Entry sp))
  upsert_in entry none = none
  upsert_in entry (some m) = some (insert entry.id entry m)

  unfoldable pub upsert : Entry sp → EntryListCache sp → EntryListCache sp
  unfolding upsert_in
  upsert entry c = record c { entries = upsert_in entry c.entries }

  pub drop_in : Str → Option (Assoc (Entry sp)) → Option (Assoc (Entry sp))
  drop_in id none = none
  drop_in id (some m) = some (remove id m)

  unfoldable pub drop : Str → EntryListCache sp → EntryListCache sp
  unfolding drop_in
  drop id c = record c { entries = drop_in id c.entries }

  unfoldable pub invalidate : EntryListCache sp → EntryListCache sp
  invalidate c = record c { next_reload = zero_time }
