-- ===== src/SpireEntry/Plan/Convergence.antt =====
-- A second pass over a server that has taken all changes of the first has nothing to do.
use spire_controller_manager.Prelude.{
  ℕ, Str, str_eq_refl, true, not, ◌&&◌, List, [], ◌∷◌, ◌++◌, is_empty, ◌≡◌, refl, inl, inr, arith,
  All, keep, append-nil, Bool-cases, keep-sub,
}
use spire_controller_manager.Spiffe.{Spiffe, SpiffeLaws}
use spire_controller_manager.SpireApi.Types.{Entry, FieldSet}
use spire_controller_manager.SpireEntry.Fields.{outdated_entry_fields}
use spire_controller_manager.SpireEntry.Fields.Matching.{outdated_none_iff}
use spire_controller_manager.SpireEntry.Partition.Ownership.{DistinctIds}
use spire_controller_manager.SpireEntry.Preference.{DeclaredEntry, sort_declared}
use spire_controller_manager.SpireEntry.Status.{Statuses}
use spire_controller_manager.SpireEntry.State.{EntryState}
use spire_controller_manager.SpireEntry.Plan.{
  Plan, empty_plan, set_id, delete_rest, create, update, plan_sorted, plan_state, plan_all,
}
use spire_controller_manager.SpireEntry.Plan.Carried.{
  replaced, remains, served, PlansNothing, IsUpToDate-refl, ours, covers,
  filter_join_token_entries-keep, survivors, Other, any_elsewhere, replaced_elsewhere,
  map-replaced_nil,
}

module _ {sp : Spiffe} (laws : SpiffeLaws sp) (prefix : Str) (unsupported : FieldSet)
    (uuid : ℕ → Str) where
  abbrev plan : List (DeclaredEntry sp) → List (Entry sp) → Plan sp → Plan sp
  plan = plan_sorted prefix unsupported uuid

  none_outdated : (e : Entry sp) → outdated_entry_fields sp e e unsupported ≡ []
  none_outdated e = (outdated_none_iff laws e e unsupported).1 (IsUpToDate-refl e unsupported)

  update_none :
      (d : DeclaredEntry sp) (c : Entry sp) (p : Plan sp)
      → outdated_entry_fields sp (set_id c.id d).entry c unsupported ≡ []
      → update prefix unsupported uuid d c p ≡ p
  unfolding update
  update_none d c p h = rw h

  -- no declared entry
  settles-none :
      (current : List (Entry sp)) (st st' : Statuses) (n n' : ℕ)
      → PlansNothing
          (plan [] (served (plan [] current (empty_plan st n)) current) (empty_plan st' n'))
  unfolding plan_sorted served delete_rest
  settles-none current st st' n n' = (
    simp (
      filter_join_token_entries-keep,
      map-replaced_nil,
      append-nil,
      survivors (keep ours current) current (covers current),
    ),
    refl,
    refl,
  )

  created_id :
      (d : DeclaredEntry sp) (p : Plan sp)
      → (id : Str) × ((create prefix unsupported uuid d p).to_create
          ≡ p.to_create ++ set_id id d ∷ [])
  unfolding create
  created_id d p = elim (Bool-cases (is_empty d.entry.id && not (is_empty prefix))) [
    | inl y ↦ (prefix ++ uuid p.drawn, rw y)
    | inr m ↦ (d.entry.id, rw m)
  ]

  -- what is on the server needs no update
  settled_head :
      (d : DeclaredEntry sp) (others : List (DeclaredEntry sp)) (c : Entry sp)
      (rest : List (Entry sp)) (st : Statuses) (n : ℕ)
      → outdated_entry_fields sp (set_id c.id d).entry c unsupported ≡ []
      → keep ours rest ≡ []
      → PlansNothing (plan (d ∷ others) (c ∷ rest) (empty_plan st n))
  unfolding plan_sorted
  settled_head d others c rest st n h k =
      rw h (rw (filter_join_token_entries-keep rest) k, refl, refl)

  set_id_settled :
      (id : Str) (d : DeclaredEntry sp)
      → outdated_entry_fields sp
          (set_id (set_id id d).entry.id d).entry
          (set_id id d).entry
          unsupported
        ≡ []
  unfolding set_id
  set_id_settled id d = none_outdated (set_id id d).entry

  -- the entry was missing
  served-created :
      (d : DeclaredEntry sp) (others : List (DeclaredEntry sp)) (st : Statuses) (n : ℕ)
      → (id : Str) × (served (plan (d ∷ others) [] (empty_plan st n)) [] ≡ (set_id id d).entry ∷ [])
  unfolding plan_sorted served set_id keep
  served-created d others st n = elim (Bool-cases (is_empty d.entry.id && not (is_empty prefix))) [
    | inl y ↦ (prefix ++ uuid n, rw y)
    | inr m ↦ (d.entry.id, rw m)
  ]

  settles-created :
      (d : DeclaredEntry sp) (others : List (DeclaredEntry sp)) (st st' : Statuses) (n n' : ℕ)
      → PlansNothing (
          plan
            (d ∷ others)
            (served (plan (d ∷ others) [] (empty_plan st n)) [])
            (empty_plan st' n'))
  settles-created d others st st' n n' =
      let (id, e) = served-created d others st n in
      rw e (
        settled_head d others (set_id id d).entry [] st' n' (set_id_settled id d)
          (unfold keep in refl))

  -- the first current entry stays, as it is or updated
  Other-ours : (c : Entry sp) (xs : List (Entry sp)) → Other c xs → remains (keep ours xs) c ≡ true
  unfolding remains
  Other-ours c xs o = rw (any_elsewhere c (keep ours xs) (keep-sub _ ours xs o))

  keep_head :
      (c : Entry sp) (rest deleted : List (Entry sp))
      → remains deleted c ≡ true
      → keep (remains deleted) (c ∷ rest) ≡ c ∷ keep (remains deleted) rest
  unfolding keep
  keep_head c rest deleted h = rw h

  replaced_head :
      (d : DeclaredEntry sp) (c : Entry sp)
      → replaced (set_id c.id d ∷ []) c ≡ (set_id c.id d).entry
  unfolding replaced set_id
  replaced_head d c = rw (str_eq_refl c.id)

  served-current :
      (d : DeclaredEntry sp) (others : List (DeclaredEntry sp)) (c : Entry sp)
      (rest : List (Entry sp)) (st : Statuses) (n : ℕ)
      → DistinctIds (c ∷ rest)
      → (c' : Entry sp) × (served (plan (d ∷ others) (c ∷ rest) (empty_plan st n)) (c ∷ rest)
          ≡ c' ∷ keep (remains (keep ours rest)) rest)
        × (outdated_entry_fields sp (set_id c'.id d).entry c' unsupported ≡ [])
  unfolding plan_sorted served
  served-current d others c rest st n distinct =
      elim (Bool-cases (is_empty (outdated_entry_fields sp (set_id c.id d).entry c unsupported))) [
        | inl y ↦ (
          c,
          rw y (
              simp (
                filter_join_token_entries-keep,
                keep_head c rest (keep ours rest) (Other-ours c rest distinct.0),
                map-replaced_nil,
                append-nil,
              )),
          ground arith,
        )
        | inr y ↦ (
          (set_id c.id d).entry,
          rw y (
              simp (
                filter_join_token_entries-keep,
                keep_head c rest (keep ours rest) (Other-ours c rest distinct.0),
                append-nil,
                replaced_head d c,
                replaced_elsewhere (set_id c.id d) c (keep (remains (keep ours rest)) rest) refl
                    (keep-sub _ (remains (keep ours rest)) rest distinct.0),
              )),
          set_id_settled c.id d,
        )
      ]

  settles-current :
      (d : DeclaredEntry sp) (others : List (DeclaredEntry sp)) (c : Entry sp)
      (rest : List (Entry sp)) (st st' : Statuses) (n n' : ℕ)
      → DistinctIds (c ∷ rest)
      → PlansNothing (
          plan
            (d ∷ others)
            (served (plan (d ∷ others) (c ∷ rest) (empty_plan st n)) (c ∷ rest))
            (empty_plan st' n'))
  settles-current d others c rest st st' n n' distinct =
      let (c', e, up) = served-current d others c rest st n distinct in
      rw e (settled_head d others c' _ st' n' up (survivors _ rest (covers rest)))

  -- One key: whatever is declared and current, the entries of the server after the pass need no
  -- further change.
  settles-sorted :
      (ds : List (DeclaredEntry sp)) (current : List (Entry sp)) (st st' : Statuses) (n n' : ℕ)
      → DistinctIds current
      → PlansNothing
          (plan ds (served (plan ds current (empty_plan st n)) current) (empty_plan st' n'))
  settles-sorted [] current st st' n n' distinct = settles-none current st st' n n'
  settles-sorted (d ∷ others) [] st st' n n' distinct = settles-created d others st st' n n'
  settles-sorted (d ∷ others) (c ∷ rest) st st' n n' distinct =
      settles-current d others c rest st st' n n' distinct

  -- the state of a key after a pass that begins with n drawn UUIDs
  pub settle : Statuses → ℕ → EntryState sp → EntryState sp
  settle st n s = record s {
    current = served (plan_state prefix unsupported uuid s (empty_plan st n)) s.current;
  }

  pub settle_all : Statuses → ℕ → List (EntryState sp) → List (EntryState sp)
  settle_all st n [] = []
  settle_all st n (s ∷ ss) =
      let p = plan_state prefix unsupported uuid s (empty_plan st n) in
      settle st n s ∷ settle_all p.statuses p.drawn ss

  settles-state :
      (s : EntryState sp) (st st' : Statuses) (n n' : ℕ)
      → DistinctIds s.current
      → PlansNothing (plan_state prefix unsupported uuid (settle st n s) (empty_plan st' n'))
  unfolding plan_state settle
  settles-state s st st' n n' distinct =
      settles-sorted (sort_declared s.declared) s.current st st' n n' distinct

  as_empty : (p : Plan sp) → PlansNothing p → p ≡ empty_plan p.statuses p.drawn
  as_empty p h = ground arith

  settles-from :
      (ss : List (EntryState sp)) (st : Statuses) (n : ℕ) (p : Plan sp)
      → All (λ s. DistinctIds s.current) ss
      → PlansNothing p
      → PlansNothing (plan_all prefix unsupported uuid (settle_all st n ss) p)
  unfolding plan_all settle_all
  settles-from [] st n p distinct h = h
  settles-from (s ∷ ss) st n p distinct h =
      let q = plan_state prefix unsupported uuid s (empty_plan st n) in
      settles-from ss q.statuses q.drawn (plan_state prefix unsupported uuid (settle st n s) p)
        distinct.1 (rw (as_empty p h) (settles-state s st p.statuses n p.drawn distinct.0))

  -- A second pass has nothing to do: over the states in which the server has taken, for each key,
  -- what the first pass planned for it, and in which what is declared is unchanged, no entry is
  -- deleted, created or updated. The IDs of the current entries of a key are distinct.
  pub plan_all-settles :
      (ss : List (EntryState sp)) (st st' : Statuses) (n n' : ℕ)
      → All (λ s. DistinctIds s.current) ss
      → PlansNothing (plan_all prefix unsupported uuid (settle_all st n ss) (empty_plan st' n'))
  plan_all-settles ss st st' n n' distinct =
      settles-from ss st n (empty_plan st' n') distinct (refl, refl, refl)
