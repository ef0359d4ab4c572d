-- ===== src/SpireEntry/Apply/Coherence.antt =====
-- The mirror after a call: it holds what the server holds, or its next read goes to the server.
use spire_controller_manager.Prelude.{
  Str, str_eq, List, [], ◌∷◌, Option, none, some, ◌==◌, if◌then◌else◌, ◌≡◌, ◌⊎◌, inl, inr, refl, ap,
  ◌∙◌, sym, Bool-cases,
}
use spire_controller_manager.Prelude.Assoc.{
  Assoc, lookup, insert, remove, lookup-insert, lookup-remove,
}
use spire_controller_manager.Spiffe.{Spiffe}
use spire_controller_manager.SpireApi.Types.{
  Entry, Status, code_ok, code_not_found, code_already_exists,
}
use spire_controller_manager.SpireEntry.ListCache
use spire_controller_manager.SpireEntry.ListCache.{EntryListCache, zero_time}
use spire_controller_manager.SpireEntry.Preference.{DeclaredEntry}
use spire_controller_manager.SpireEntry.Apply.{
  Applied, after_create, after_update, after_delete, created_one, updated_one, deleted_one, each,
  on_cache,
}

module _ {sp : Spiffe} where
  -- The server's entries by ID, after a batch with these replies: a status OK is a change made, and
  -- any other status none.
  pub server_upserts : List (DeclaredEntry sp) → List Status → Assoc (Entry sp) → Assoc (Entry sp)
  server_upserts [] statuses m = m
  server_upserts (d ∷ ds) [] m = m
  server_upserts (d ∷ ds) (s ∷ statuses) m =
      server_upserts ds statuses (if s.code == code_ok then insert d.entry.id d.entry m else m)

  pub server_deletes : List (Entry sp) → List Status → Assoc (Entry sp) → Assoc (Entry sp)
  server_deletes [] statuses m = m
  server_deletes (e ∷ es) [] m = m
  server_deletes (e ∷ es) (s ∷ statuses) m =
      server_deletes es statuses (if s.code == code_ok then remove e.id m else m)

  abbrev Mirrors : Option (Assoc (Entry sp)) → Assoc (Entry sp) → Type 0
  Mirrors none m = ⊥
  Mirrors (some l) m = (id : Str) → lookup id l ≡ lookup id m

  -- the cache is off; or due for a reload; or an exact mirror
  abbrev pub Coherent : Option (EntryListCache sp) → Assoc (Entry sp) → Type 0
  Coherent none m = Unit
  Coherent (some c) m = (c.next_reload ≡ zero_time) ⊎ Mirrors c.entries m

  upsert-Mirrors :
      (e : Entry sp) (l : Option (Assoc (Entry sp))) (m : Assoc (Entry sp))
      → Mirrors l m
      → Mirrors (ListCache.upsert_in e l) (insert e.id e m)
  unfolding ListCache.upsert
  upsert-Mirrors e none m h = h
  upsert-Mirrors e (some l) m h = λ id.
      lookup-insert e.id id e l
      ∙ (ap (λ o. if str_eq e.id id then some e else o) (h id) ∙ sym (lookup-insert e.id id e m))

  drop-Mirrors :
      (id : Str) (l : Option (Assoc (Entry sp))) (m : Assoc (Entry sp))
      → Mirrors l m
      → Mirrors (ListCache.drop_in id l) (remove id m)
  unfolding ListCache.drop
  drop-Mirrors id none m h = h
  drop-Mirrors id (some l) m h = λ j.
      lookup-remove id j l
      ∙ (ap (λ o. if str_eq id j then none else o) (h j) ∙ sym (lookup-remove id j m))

  upsert-Coherent :
      (e : Entry sp) (c : Option (EntryListCache sp)) (m : Assoc (Entry sp))
      → Coherent c m
      → Coherent (on_cache (ListCache.upsert e) c) (insert e.id e m)
  unfolding after_update ListCache.upsert
  upsert-Coherent e none m h = tt
  upsert-Coherent e (some c) m (inl due) = inl due
  upsert-Coherent e (some c) m (inr mirrors) = inr (upsert-Mirrors e c.entries m mirrors)

  drop-Coherent :
      (id : Str) (c : Option (EntryListCache sp)) (m : Assoc (Entry sp))
      → Coherent c m
      → Coherent (on_cache (ListCache.drop id) c) (remove id m)
  unfolding after_update ListCache.drop
  drop-Coherent id none m h = tt
  drop-Coherent id (some c) m (inl due) = inl due
  drop-Coherent id (some c) m (inr mirrors) = inr (drop-Mirrors id c.entries m mirrors)

  invalidate-Coherent :
      (c : Option (EntryListCache sp)) (m : Assoc (Entry sp))
      → Coherent (on_cache ListCache.invalidate c) m
  unfolding after_update ListCache.invalidate
  invalidate-Coherent none m = tt
  invalidate-Coherent (some c) m = inl refl

  drop-invalidate-Coherent :
      (id : Str) (c : Option (EntryListCache sp)) (m : Assoc (Entry sp))
      → Coherent (on_cache (λ c. ListCache.invalidate (ListCache.drop id c)) c) m
  unfolding after_update ListCache.invalidate
  drop-invalidate-Coherent id none m = tt
  drop-invalidate-Coherent id (some c) m = inl refl

  -- After a create, an update, the mirror is coherent with the server again: where the server
  -- answered, it made the changes that it reports with OK; where the call failed, whatever it did.
  each-created :
      (ds : List (DeclaredEntry sp)) (ss : List Status) (a : Applied sp) (m : Assoc (Entry sp))
      → Coherent a.cache m
      → Coherent (each created_one ds ss a).cache (server_upserts ds ss m)
  unfolding after_create server_upserts
  each-created [] ss a m h = h
  each-created (d ∷ ds) [] a m h = h
  each-created (d ∷ ds) (s ∷ ss) a m h = each-created ds ss (created_one d s a) _ step
    where
      step :
          Coherent
            (created_one d s a).cache
            (if s.code == code_ok then insert d.entry.id d.entry m else m)
      step = elim (Bool-cases (s.code == code_ok)) [
        | inl y ↦ rw y (upsert-Coherent d.entry a.cache m h)
        | inr n ↦ rw n (elim (Bool-cases (s.code == code_already_exists)) [
          | inl y ↦ rw y (invalidate-Coherent a.cache m)
          | inr n ↦ rw n h
        ])
      ]

  each-updated :
      (ds : List (DeclaredEntry sp)) (ss : List Status) (a : Applied sp) (m : Assoc (Entry sp))
      → Coherent a.cache m
      → Coherent (each updated_one ds ss a).cache (server_upserts ds ss m)
  unfolding after_update server_upserts
  each-updated [] ss a m h = h
  each-updated (d ∷ ds) [] a m h = h
  each-updated (d ∷ ds) (s ∷ ss) a m h = each-updated ds ss (updated_one d s a) _ step
    where
      step :
          Coherent
            (updated_one d s a).cache
            (if s.code == code_ok then insert d.entry.id d.entry m else m)
      step = elim (Bool-cases (s.code == code_ok)) [
        | inl y ↦ rw y (upsert-Coherent d.entry a.cache m h)
        | inr n ↦ rw n (elim (Bool-cases (s.code == code_not_found)) [
          | inl y ↦ rw y (drop-invalidate-Coherent d.entry.id a.cache m)
          | inr n ↦ rw n h
        ])
      ]

  each-deleted :
      (es : List (Entry sp)) (ss : List Status) (a : Applied sp) (m : Assoc (Entry sp))
      → Coherent a.cache m
      → Coherent (each deleted_one es ss a).cache (server_deletes es ss m)
  unfolding after_delete server_deletes
  each-deleted [] ss a m h = h
  each-deleted (e ∷ es) [] a m h = h
  each-deleted (e ∷ es) (s ∷ ss) a m h = each-deleted es ss (deleted_one e s a) _ step
    where
      step : Coherent (deleted_one e s a).cache (if s.code == code_ok then remove e.id m else m)
      step = elim (Bool-cases (s.code == code_ok)) [
        | inl y ↦ rw y (drop-Coherent e.id a.cache m h)
        | inr n ↦ rw n (elim (Bool-cases (s.code == code_not_found)) [
          | inl y ↦ rw y (drop-invalidate-Coherent e.id a.cache m)
          | inr n ↦ rw n h
        ])
      ]

  -- what the server holds after a call: known where it answered, and anything where it did not
  abbrev pub Served :
      (List Status → Assoc (Entry sp)) → Option (List Status) → Assoc (Entry sp) → Type 0
  Served changed none m = Unit
  Served changed (some statuses) m = m ≡ changed statuses

  -- Creating keeps the mirror coherent with the server: if it was, and the server made exactly the
  -- changes that its statuses report (anything, if the call failed), it is so again.
  pub after_create-Coherent :
      (ds : List (DeclaredEntry sp)) (reply : Option (List Status)) (a : Applied sp)
      (m n : Assoc (Entry sp))
      → Coherent a.cache m
      → Served (λ statuses. server_upserts ds statuses m) reply n
      → Coherent (after_create ds reply a).cache n
  unfolding after_create
  after_create-Coherent ds none a m n h s = invalidate-Coherent a.cache n
  after_create-Coherent ds (some ss) a m n h s = rw s (each-created ds ss a m h)

  -- Updating keeps the mirror coherent with the server: if it was, and the server made exactly the
  -- changes that its statuses report (anything, if the call failed), it is so again.
  pub after_update-Coherent :
      (ds : List (DeclaredEntry sp)) (reply : Option (List Status)) (a : Applied sp)
      (m n : Assoc (Entry sp))
      → Coherent a.cache m
      → Served (λ statuses. server_upserts ds statuses m) reply n
      → Coherent (after_update ds reply a).cache n
  unfolding after_update
  after_update-Coherent ds none a m n h s = invalidate-Coherent a.cache n
  after_update-Coherent ds (some ss) a m n h s = rw s (each-updated ds ss a m h)

  -- Deleting keeps the mirror coherent with the server: if it was, and the server made exactly the
  -- changes that its statuses report (anything, if the call failed), it is so again.
  pub after_delete-Coherent :
      (es : List (Entry sp)) (reply : Option (List Status)) (a : Applied sp)
      (m n : Assoc (Entry sp))
      → Coherent a.cache m
      → Served (λ statuses. server_deletes es statuses m) reply n
      → Coherent (after_delete es reply a).cache n
  unfolding after_delete
  after_delete-Coherent es none a m n h s = invalidate-Coherent a.cache n
  after_delete-Coherent es (some ss) a m n h s = rw s (each-deleted es ss a m h)
