-- ===== src/SpireApi/Clients.antt =====
-- entryapi.go: the calls of the server, in batches and in pages. The client that the protobuf
-- compiler generates is a record of functions over the state W of the outside. A missing status of a
-- test entry, on which the code panics, is an error.
pub mod Pages
use spire_controller_manager.Prelude.{
  ℕ, zero, suc, ◌-◌, Str, codes, str_eq, Bool, true, false, not, ◌&&◌, ◌||◌, ◌==◌, List, [], ◌∷◌,
  ◌++◌, Option, none, some, map, any, keep, is_empty, length, take, drop, uniq, if◌then◌else◌,
  ◌>>=◌, traverse,
}
use spire_controller_manager.Prelude.Int.{ℤ, pos, eqb_ℤ}
use spire_controller_manager.Spiffe.{Spiffe}
use spire_controller_manager.SpireApi.Types.{
  Entry, Selector, Status, Code, Field, FieldSet, code_ok, code_already_exists, hint_field,
  jwt_svid_ttl_field, store_svid_field, FederationRelationship,
}
use spire_controller_manager.SpireApi.Batch.{run_batch}
use spire_controller_manager.SpireApi.Convert.{
  ApiEntry, ApiSpiffeId, ApiStatus, ApiFederationRelationship, Url, status_from_api, entries_to_api,
  entries_from_api, federation_relationship_to_api, federation_relationship_from_api,
}

-- a page of a listing: its elements and the token of the next page
abbrev pub Page : Type 0 → Type 0
Page X = List X × Str

-- entryv1.EntryClient. A listing's filter is a hint; a created entry comes back with its status.
pub record EntryApi (W : Type 0) : Type 0 where
  pub list_entries : Option Str → Str → ℕ → W → Option (Page (Option ApiEntry)) × W
  pub batch_create_entry :
      List (Option ApiEntry) → W → Option (List (Option ApiStatus × ApiEntry)) × W
  pub batch_update_entry : List (Option ApiEntry) → W → Option (List (Option ApiStatus)) × W
  pub batch_delete_entry : List Str → W → Option (List (Option ApiStatus)) × W

abbrev pub create_batch_size : ℕ
create_batch_size = 50

abbrev pub update_batch_size : ℕ
update_batch_size = 50

abbrev pub delete_batch_size : ℕ
delete_batch_size = 200

abbrev pub list_page_size : ℕ
list_page_size = 200

module _ {X W : Type 0} where
  page_or_stop :
      Option (Page X) → List X → (Str → List X → Option (List X) × W) → W → Option (List X) × W
  page_or_stop none acc rest w = (none, w)
  page_or_stop (some (xs, next)) acc rest w =
      if◌then◌else◌ {A = Option (List X) × W} (is_empty next) (some (acc ++ xs), w)
        (rest next (acc ++ xs))

  -- The loop over the pages, from a token and the elements so far; the fuel counts the pages, and
  -- without fuel it fails.
  unfoldable pub list_pages :
      (Str → W → Option (Page X) × W) → ℕ → Str → List X → W → Option (List X) × W
  unfolding page_or_stop
  list_pages call zero token acc w = (none, w)
  list_pages call (suc fuel) token acc w =
      let (reply, w') = call token w in
      page_or_stop reply acc (λ next acc. list_pages call fuel next acc w') w'

-- The callback of a batched call: the statuses so far, and the world.
replied :
    {W : Type 0} → Option (List (Option ApiStatus)) → List Status → W → Bool × (List Status × W)
unfolding status_from_api
replied none ss w = (false, (ss, w))
replied (some rs) ss w = (true, (ss ++ map status_from_api rs, w))

module _ {X W : Type 0} where
  send_batch :
      (List X → W → Option (List (Option ApiStatus)) × W)
      → List X
      → ℕ
      → ℕ
      → List Status × W
      → Bool × (List Status × W)
  unfolding replied
  send_batch call xs start end (ss, w) =
      let (reply, w') = call (take (end - start) (drop start xs)) w in replied reply ss w'

  -- the statuses are what the caller reads where there is no error
  unfoldable pub send_all :
      (List X → W → Option (List (Option ApiStatus)) × W)
      → ℕ
      → List X
      → W
      → Option (List Status) × W
  unfolding send_batch run_batch
  send_all call batch xs w =
      let (good, (ss, w')) = run_batch (send_batch call xs) (length xs) batch ([], w) in
      (if good then some ss else none, w')

unfoldable pub delete_entries : {W : Type 0} → EntryApi W → List Str → W → Option (List Status) × W
unfolding send_all
delete_entries api = send_all api.batch_delete_entry delete_batch_size

module _ {sp : Spiffe} {W : Type 0} (api : EntryApi W) where
  unfoldable pub create_entries : List (Entry sp) → W → Option (List Status) × W
  unfolding send_all entries_to_api
  create_entries =
      send_all
        (λ es w.
          let (reply, w') = api.batch_create_entry (entries_to_api sp es) w in
          (reply >>= λ rs. some (map (λ r. r.0) rs), w'))
        create_batch_size

  unfoldable pub update_entries : List (Entry sp) → W → Option (List Status) × W
  unfolding send_all entries_to_api
  update_entries = send_all (λ es. api.batch_update_entry (entries_to_api sp es)) update_batch_size

  -- listEntries; the fuel bounds the number of pages
  list_filtered : ℕ → Option Str → W → Option (List (Entry sp)) × W
  unfolding list_pages entries_from_api
  list_filtered fuel filter w =
      let (entries, w') =
        list_pages (λ token. api.list_entries filter token list_page_size) fuel [] [] w in
      (entries >>= entries_from_api sp, w')

  -- lo.UniqBy over the IDs
  uniq_by_id : List Str → List (Entry sp) → List (Entry sp)
  unfolding any
  uniq_by_id seen [] = []
  uniq_by_id seen (e ∷ es) =
      let old = uniq_by_id seen es in
      let new = uniq_by_id (e.id ∷ seen) es in if any (str_eq e.id) seen then old else e ∷ new

  -- parallel.Map over the hints, one after the other, and the concatenation of the results
  list_hints : ℕ → List Str → W → Option (List (Entry sp)) × W
  unfolding list_filtered
  list_hints fuel [] w = (some [], w)
  list_hints fuel (hint ∷ hints) w =
      let (entries, w') = list_filtered fuel (some hint) w in
      let (others, w'') = list_hints fuel hints w' in
      (entries >>= λ es. others >>= λ fs. some (es ++ fs), w'')

  list_by : ℕ → List Str → W → Option (List (Entry sp)) × W
  unfolding list_filtered list_hints uniq_by_id
  list_by fuel [] w = list_filtered fuel none w
  list_by fuel (hint ∷ hints) w =
      let (entries, w') = list_hints fuel (hint ∷ hints) w in
      (entries >>= λ es. some (uniq_by_id [] es), w')

  unfoldable pub list_entries : ℕ → List Str → W → Option (List (Entry sp)) × W
  unfolding list_by uniq keep
  list_entries fuel hints w = list_by fuel (uniq (keep (λ h. not (is_empty h)) hints)) w

-- the entry that GetUnsupportedFields creates and deletes again
unsupported_fields_test : Str → Str → ApiEntry
unsupported_fields_test td prefix =
    let id : Option ApiSpiffeId = some (record {
      trust_domain = td;
      path = codes "/spire-controller-manager/unsupported-fields-test";
    }) in
    record {
      id =
          if is_empty prefix
          then []
          else prefix ++ codes "spire-controller-manager.unsupported-fields-test";
      spiffe_id = id;
      parent_id = id;
      selectors = record { type = codes "a"; value = codes "1" } ∷ [];
      x509_svid_ttl = pos 60;
      jwt_svid_ttl = pos 60;
      federates_with = [];
      admin = false;
      downstream = false;
      dns_names = [];
      hint = codes "hint";
      store_svid = true;
    }

-- the fields that did not come back
missing_fields : ApiEntry → FieldSet
missing_fields e jwt_svid_ttl_field = eqb_ℤ e.jwt_svid_ttl (pos 0)
missing_fields e hint_field = is_empty e.hint
missing_fields e store_svid_field = not e.store_svid
missing_fields e _ = false

module _ {W : Type 0} (api : EntryApi W) where
  -- the reply has exactly one result, OK or AlreadyExists; its entry is deleted, whatever comes back
  judge : Option (List (Option ApiStatus × ApiEntry)) → W → Option FieldSet × W
  unfolding missing_fields status_from_api
  judge none w = (none, w)
  judge (some []) w = (none, w)
  judge (some ((s, e) ∷ [])) w =
      let code = (status_from_api s).code in
      if◌then◌else◌ {A = Option FieldSet × W} (code == code_ok || code == code_already_exists)
        (some (missing_fields e), (api.batch_delete_entry (e.id ∷ []) w).1) (none, w)
  judge (some (_ ∷ _ ∷ _)) w = (none, w)

  unfoldable pub get_unsupported_fields : Str → Str → W → Option FieldSet × W
  unfolding judge unsupported_fields_test
  get_unsupported_fields td prefix w =
      let (reply, w') = api.batch_create_entry (some (unsupported_fields_test td prefix) ∷ []) w in
      judge reply w'
