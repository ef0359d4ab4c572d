-- ===== src/SpireEntry/Plan/Carried.antt =====
-- What the server holds when it has carried out a plan, and the entries that remain as they were.
use mathlib.Core.Path.{subst}
use spire_controller_manager.Prelude.{
  str_eq, str_eq_refl, str_eq_iff, Bool, true, false, not, List, [], ◌∷◌, ◌++◌, if◌then◌else◌, ◌≡◌,
  refl, sym, ap, inl, inr, arith, All, keep, any, map, Bool-cases,
}
use mathlib.Core.List.Perm
use spire_controller_manager.Spiffe.{Spiffe}
use spire_controller_manager.SpireApi.Types.{Entry, FieldSet}
use spire_controller_manager.SpireEntry.Fields.Matching.{IsUpToDate}
use spire_controller_manager.SpireEntry.JoinToken.{is_join_token_entry, filter_join_token_entries}
use spire_controller_manager.SpireEntry.Preference.{DeclaredEntry}
use spire_controller_manager.SpireEntry.Plan.{Plan}

module _ {sp : Spiffe} where
  -- the entry that an update of the server puts in the place of `e`
  unfoldable pub replaced : List (DeclaredEntry sp) → Entry sp → Entry sp
  replaced [] e = e
  replaced (u ∷ us) e = if str_eq e.id u.entry.id then u.entry else replaced us e

  unfoldable pub remains : List (Entry sp) → Entry sp → Bool
  remains deleted e = not (any (λ d. str_eq e.id d.id) deleted)

  -- The entries of one key on a server that has deleted, created and updated as planned, each entry
  -- by its ID, and lists what remains in the same order.
  unfoldable pub served : Plan sp → List (Entry sp) → List (Entry sp)
  served p current =
      map (replaced p.to_update) (keep (remains p.to_delete) current)
      ++ map (λ d. d.entry) p.to_create

  abbrev pub PlansNothing : Plan sp → Type 0
  PlansNothing p = (p.to_delete ≡ []) × (p.to_create ≡ []) × (p.to_update ≡ [])

  pub IsUpToDate-refl : (e : Entry sp) (u : FieldSet) → IsUpToDate e e u
  IsUpToDate-refl e u = record {
    x509_svid_ttl = refl;
    jwt_svid_ttl = λ _. refl;
    federates_with = Perm.refl e.federates_with;
    admin = refl;
    downstream = refl;
    dns_names = Perm.refl e.dns_names;
    hint = λ _. refl;
    store_svid = λ _. refl;
  }

  pub ours : Entry sp → Bool
  ours e = not (is_join_token_entry sp e)

  abbrev same_id : Entry sp → Entry sp → Bool
  same_id e d = str_eq e.id d.id

  any_self : (x : Entry sp) (xs : List (Entry sp)) → any (same_id x) (x ∷ xs) ≡ true
  unfolding any
  any_self x xs = rw (str_eq_refl x.id)

  any_more :
      (x d : Entry sp) (xs : List (Entry sp))
      → any (same_id x) xs ≡ true
      → any (same_id x) (d ∷ xs) ≡ true
  unfolding any
  any_more x d xs h = ground arith

  -- each entry of the list that is no join token's has its ID among the deleted
  abbrev Covers : List (Entry sp) → List (Entry sp) → Type 0
  Covers deleted = All (λ e. ours e ≡ true → any (same_id e) deleted ≡ true)

  Covers-cons :
      (d : Entry sp) (deleted xs : List (Entry sp)) → Covers deleted xs → Covers (d ∷ deleted) xs
  Covers-cons d deleted [] c = tt
  Covers-cons d deleted (x ∷ xs) c =
      ((λ h. any_more x d deleted (c.0 h)), Covers-cons d deleted xs c.1)

  keep_yes :
      (x : Entry sp) (xs : List (Entry sp)) → ours x ≡ true → keep ours (x ∷ xs) ≡ x ∷ keep ours xs
  unfolding keep
  keep_yes x xs h = rw h

  keep_no :
      (x : Entry sp) (xs : List (Entry sp)) → ours x ≡ false → keep ours (x ∷ xs) ≡ keep ours xs
  unfolding keep
  keep_no x xs h = rw h

  pub covers : (xs : List (Entry sp)) → Covers (keep ours xs) xs
  covers [] = tt
  covers (x ∷ xs) = elim (Bool-cases (ours x)) [
    | inl y ↦
        subst (λ l. Covers l (x ∷ xs)) (sym (keep_yes x xs y))
          ((λ h. any_self x _), Covers-cons x (keep ours xs) xs (covers xs))
    | inr n ↦ subst (λ l. Covers l (x ∷ xs)) (sym (keep_no x xs n)) ((λ h. cc (h, n)), covers xs)
  ]

  pub filter_join_token_entries-keep :
      (xs : List (Entry sp)) → filter_join_token_entries sp xs ≡ keep ours xs
  unfolding filter_join_token_entries ours
  filter_join_token_entries-keep xs = refl

  -- what is left of a list are entries of join tokens
  pub survivors :
      (deleted xs : List (Entry sp))
      → Covers deleted xs
      → keep ours (keep (remains deleted) xs) ≡ []
  unfolding keep remains
  survivors deleted [] c = refl
  survivors deleted (x ∷ xs) c = ground (arith, survivors deleted xs c.1, c.0)

  abbrev pub Other : Entry sp → List (Entry sp) → Type 0
  Other c = All (λ f. str_eq c.id f.id ≡ false)

  pub any_elsewhere :
      (c : Entry sp) (xs : List (Entry sp)) → Other c xs → any (same_id c) xs ≡ false
  unfolding any
  any_elsewhere c [] o = refl
  any_elsewhere c (x ∷ xs) o = rw (o.0) (any_elsewhere c xs o.1)

  pub replaced_elsewhere :
      (u : DeclaredEntry sp) (c : Entry sp) (xs : List (Entry sp))
      → u.entry.id ≡ c.id
      → Other c xs
      → map (replaced (u ∷ [])) xs ≡ xs
  unfolding replaced
  replaced_elsewhere u c [] e o = refl
  replaced_elsewhere u c (x ∷ xs) e o = ground (
    arith,
    o.0,
    str_eq_iff c.id x.id,
    str_eq_iff x.id u.entry.id,
    replaced_elsewhere u c xs e o.1,
  )

  pub map-replaced_nil : (xs : List (Entry sp)) → map (replaced []) xs ≡ xs
  unfolding replaced
  map-replaced_nil [] = refl
  map-replaced_nil (x ∷ xs) = ap (◌∷◌ x) (map-replaced_nil xs)
