-- ===== src/SpireEntry/Fields.antt =====
-- The comparison of a declared entry with the current one (getOutdatedEntryFields) and the two
-- comparisons of lists without order.
pub mod Matching
use spire_controller_manager.Prelude.{
  ℕ, Str, str_eq, str_lt, Bool, true, false, not, List, [], ◌∷◌, ◌++◌, ◌&&◌, ◌==◌, length,
  if◌then◌else◌, bool_eq,
}
use spire_controller_manager.Prelude.Sort.{sort}
use spire_controller_manager.Prelude.Int.{eqb_ℤ}
use spire_controller_manager.Spiffe.{Spiffe}
use spire_controller_manager.SpireApi.Types.{
  Entry, Field, FieldSet, admin_field, dns_names_field, downstream_field, federates_with_field,
  hint_field, jwt_svid_ttl_field, store_svid_field, x509_svid_ttl_field,
}

-- for i := range as { if as[i] != bs[i] { return false } }; return true
-- The callers have compared the lengths before, so the last clause is not reached.
elements_eq {ℓ} : {A : Type ℓ} → (A → A → Bool) → List A → List A → Bool
elements_eq eq [] [] = true
elements_eq eq (a ∷ xs) (b ∷ ys) = eq a b && elements_eq eq xs ys
elements_eq eq _ _ = false

unfoldable pub strings_match : List Str → List Str → Bool
unfolding elements_eq sort
strings_match xs ys =
    if not (length xs == length ys)
    then false
    else elements_eq str_eq (sort str_lt xs) (sort str_lt ys)

-- append(outdated, field) under a test
abbrev when : Bool → Field → List Field
when true f = f ∷ []
when false f = []

module _ (sp : Spiffe) where
  unfoldable pub trust_domains_match : List sp.TrustDomain → List sp.TrustDomain → Bool
  unfolding elements_eq sort
  trust_domains_match xs ys =
      if not (length xs == length ys)
      then false
      else elements_eq sp.td_eq (sort sp.td_lt xs) (sort sp.td_lt ys)

  unfoldable pub outdated_entry_fields : Entry sp → Entry sp → FieldSet → List Field
  outdated_entry_fields new old unsupported =
      when (not (eqb_ℤ old.x509_svid_ttl new.x509_svid_ttl)) x509_svid_ttl_field
      ++ (when
            (not (eqb_ℤ old.jwt_svid_ttl new.jwt_svid_ttl) && not (unsupported jwt_svid_ttl_field))
            jwt_svid_ttl_field
          ++ (when (not (trust_domains_match old.federates_with new.federates_with))
                federates_with_field
              ++ (when (not (bool_eq old.admin new.admin)) admin_field
                  ++ (when (not (bool_eq old.downstream new.downstream)) downstream_field
                      ++ (when (not (strings_match old.dns_names new.dns_names)) dns_names_field
                          ++ (when (not (str_eq old.hint new.hint) && not (unsupported hint_field))
                                hint_field
                              ++ when
                                  (not (bool_eq old.store_svid new.store_svid)
                                    && not (unsupported store_svid_field))
                                  store_svid_field))))))
