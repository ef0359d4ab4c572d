-- ===== src/SpireEntry/Partition/Ownership.antt =====
-- The partition of the entries by their IDs.
use spire_controller_manager.Prelude.{
  Perm, keep-perm, keep-sub, All-append, All-middle, str_eq, str_eq_iff, Str, has_prefix,
  contains_byte, is_empty, Bool, true, false, ◌&&◌, ◌↔◌, append-nil, List, [], ◌∷◌, ◌++◌, Option,
  none, some, ◌≡◌, refl, arith, keep, keep-append, ◌⊎◌, Bool-cases, inl, inr, All, keep_whole,
  keep-All,
}
use spire_controller_manager.Spiffe.{Spiffe}
use spire_controller_manager.SpireApi.Types.{Entry}
use spire_controller_manager.SpireEntry.Config.{ReconcilerConfig}
use spire_controller_manager.SpireEntry.Partition.{
  cleanup_entry_id, should_process_or_delete_entry_id, split_entries,
}

module _ {sp : Spiffe} where
  -- no two entries of the list have one ID
  abbrev pub DistinctIds : List (Entry sp) → Type 0
  DistinctIds [] = Unit
  DistinctIds (e ∷ es) = All (λ f. str_eq e.id f.id ≡ false) es × DistinctIds es

  DistinctIds-middle :
      (e : Entry sp) (xs ys : List (Entry sp))
      → All (λ f. str_eq e.id f.id ≡ false) (xs ++ ys)
      → DistinctIds (xs ++ ys)
      → DistinctIds (xs ++ e ∷ ys)
  DistinctIds-middle e [] ys a d = (a, d)
  DistinctIds-middle e (x ∷ xs) ys a d = (
    All-middle (λ f. str_eq x.id f.id ≡ false) xs ys
        (ground (arith, a.0, str_eq_iff e.id x.id, str_eq_iff x.id e.id)) d.0,
    DistinctIds-middle e xs ys a.1 d.1,
  )

module _ {sp : Spiffe} (config : ReconcilerConfig sp) where
  -- The entry is the manager's own: there is no prefix, or its ID has the prefix.
  abbrev pub Owned : Entry sp → Type 0
  Owned e =
      (is_empty config.entry_id_prefix ≡ true) ⊎ (has_prefix config.entry_id_prefix e.id ≡ true)

  -- The entry belongs to the prefix that is being cleaned up; the empty prefix stands for all IDs
  -- without a dot.
  abbrev pub ForCleanup : Option Str → Str → Type 0
  ForCleanup none id = ⊥
  ForCleanup (some []) id = contains_byte b'.' id ≡ false
  ForCleanup (some (c ∷ p)) id = has_prefix (c ∷ p) id ≡ true

  cleanup_processes_none : (c : Option Str) (id : Str) → (cleanup_entry_id c id).0 ≡ false
  unfolding cleanup_entry_id
  cleanup_processes_none none id = refl
  cleanup_processes_none (some []) id = refl
  cleanup_processes_none (some (a ∷ p)) id = ground arith

  cleanup_iff : (c : Option Str) (id : Str) → ((cleanup_entry_id c id).1 ≡ true) ↔ ForCleanup c id
  unfolding cleanup_entry_id
  cleanup_iff none id = (λ h. cc, λ h. absurd h)
  cleanup_iff (some []) id = ground arith
  cleanup_iff (some (a ∷ p)) id = ground arith

  -- An entry is processed exactly if it is the manager's own, and it is only deleted exactly if it
  -- is not the manager's own and is up for cleanup.
  pub should_process_or_delete_iff :
      (e : Entry sp)
      → (((should_process_or_delete_entry_id config e).0 ≡ true) ↔ Owned e)
        × (((should_process_or_delete_entry_id config e).1 ≡ true)
            ↔ (¬ Owned e × ForCleanup config.entry_id_prefix_cleanup e.id))
  unfolding should_process_or_delete_entry_id
  should_process_or_delete_iff e = elim (Bool-cases (is_empty config.entry_id_prefix)) [
    | inl y ↦ rw y ((λ _. inl refl, λ _. refl), (λ h. cc, λ h. absurd (h.0 (inl refl))))
    | inr n ↦ elim (Bool-cases (has_prefix config.entry_id_prefix e.id)) [
      | inl y ↦ rw (n, y) ((λ _. inr refl, λ _. refl), (λ h. cc, λ h. absurd (h.0 (inr refl))))
      | inr m ↦
          rw (n, m)
            (
              (
                λ h. cc (cleanup_processes_none config.entry_id_prefix_cleanup e.id),
                λ h. ground arith,
              ),
              (
                λ h. (λ o. ground arith, (cleanup_iff config.entry_id_prefix_cleanup e.id).0 h),
                λ h. (cleanup_iff config.entry_id_prefix_cleanup e.id).1 h.1,
              ),
            )
    ]
  ]

  processed : Entry sp → Bool
  processed e = (should_process_or_delete_entry_id config e).0

  deleted : Entry sp → Bool
  deleted e = (should_process_or_delete_entry_id config e).1

  split_entries-keep :
      (es : List (Entry sp)) → split_entries config es ≡ (keep processed es, keep deleted es)
  unfolding split_entries processed deleted keep
  split_entries-keep [] = refl
  split_entries-keep (e ∷ es) = ground (arith, split_entries-keep es)

  -- no entry is in both parts
  exclusive : (e : Entry sp) → (processed e && deleted e) ≡ false
  unfolding processed deleted should_process_or_delete_entry_id
  exclusive e = ground (arith, cleanup_processes_none config.entry_id_prefix_cleanup e.id)

  deleted-false : (e : Entry sp) → processed e ≡ true → deleted e ≡ false
  deleted-false e h = ground (arith, exclusive e)

  parts_apart :
      (e : Entry sp) (es : List (Entry sp))
      → All (λ f. str_eq e.id f.id ≡ false) es
      → All (λ f. str_eq e.id f.id ≡ false) (keep processed es ++ keep deleted es)
  parts_apart e es a =
      All-append _ (keep processed es) (keep deleted es) (keep-sub _ processed es a)
        (keep-sub _ deleted es a)

  split_ids :
      (es : List (Entry sp)) → DistinctIds es → DistinctIds (keep processed es ++ keep deleted es)
  unfolding keep
  split_ids [] d = tt
  split_ids (e ∷ es) d = elim (Bool-cases (processed e)) [
    | inl y ↦ rw (y, deleted-false e y) (parts_apart e es d.0, split_ids es d.1)
    | inr n ↦ elim (Bool-cases (deleted e)) [
      | inl y ↦
          rw (n, y)
            (DistinctIds-middle e (keep processed es) (keep deleted es) (parts_apart e es d.0)
              (split_ids es d.1))
      | inr m ↦ rw (n, m) (split_ids es d.1)
    ]
  ]

  -- the parts, one behind the other, have distinct IDs if the entries have
  pub split_entries-DistinctIds :
      (es : List (Entry sp))
      → DistinctIds es
      → DistinctIds ((split_entries config es).0 ++ (split_entries config es).1)
  split_entries-DistinctIds es d = rw (split_entries-keep es) (split_ids es d)

  keep_other :
      (p q : Entry sp → Bool) (es : List (Entry sp))
      → ((e : Entry sp) → (p e && q e) ≡ false)
      → keep q (keep p es) ≡ []
  unfolding keep
  keep_other p q [] x = refl
  keep_other p q (e ∷ es) x = ground (arith, x e, keep_other p q es x)

  keep_again : (p : Entry sp → Bool) (es : List (Entry sp)) → keep p (keep p es) ≡ keep p es
  keep_again p es = keep_whole p (keep p es) (keep-All p es)

  -- the parts of permuted lists are permuted
  pub split_entries-perm :
      (xs ys : List (Entry sp))
      → Perm xs ys
      → Perm (split_entries config xs).0 (split_entries config ys).0
        × Perm (split_entries config xs).1 (split_entries config ys).1
  split_entries-perm xs ys h =
      rw (split_entries-keep xs, split_entries-keep ys) (keep-perm processed h, keep-perm deleted h)

  -- splitting again what the split kept
  pub split_entries-again :
      (es : List (Entry sp))
      → let (current, delete_only) = split_entries config es in
        split_entries config (current ++ delete_only) ≡ (current, delete_only)
  split_entries-again es = simp (
    split_entries-keep,
    keep-append,
    keep_again,
    append-nil,
    keep_other processed deleted es exclusive,
    keep_other deleted processed es (λ e. ground (arith, exclusive e)),
  )
