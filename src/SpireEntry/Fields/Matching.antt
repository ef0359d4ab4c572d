-- ===== src/SpireEntry/Fields/Matching.antt =====
-- When two lists match, and when an entry is up to date.
use mathlib.Core.List.{Permᴰ}
use mathlib.Core.Logic.{∥∥₁_elim}
use native.Mathlib.Nat.{ℕ_set}
use spire_controller_manager.Prelude.{
  suc, Str, str_lt, str_eq_iff, str_lt_irrefl, str_lt_trans, str_lt_total, Bool, true, false, not,
  List, [], ◌∷◌, ◌==◌, length, if◌then◌else◌, ◌≡◌, ◌↔◌, refl, ap, ◌∙◌, Perm, arith,
}
use spire_controller_manager.Prelude.Int.{eqb_ℤ_iff}
use spire_controller_manager.Prelude.Sort.{sort, StrictOrder, perm_iff_sort-eq}
use spire_controller_manager.Spiffe.{Spiffe, SpiffeLaws, td_order, td_list_set}
use spire_controller_manager.SpireApi.Types.{
  Entry, FieldSet, hint_field, jwt_svid_ttl_field, store_svid_field,
}
use spire_controller_manager.SpireEntry.Fields.{
  elements_eq, strings_match, trust_domains_match, outdated_entry_fields,
}

module _ {ℓ} {A : Type ℓ} {eq : A → A → Bool} (law : (a b : A) → (eq a b ≡ true) ↔ (a ≡ b)) where
  elements_eq_iff : (xs ys : List A) → (elements_eq eq xs ys ≡ true) ↔ (xs ≡ ys)
  unfolding elements_eq
  elements_eq_iff [] [] = (λ _. refl, λ _. refl)
  elements_eq_iff (a ∷ xs) (b ∷ ys) = ground (arith, law a b, elements_eq_iff xs ys)
  elements_eq_iff _ _ = ground arith

str_set : IsSet (List Str)
str_set = hlevel

str_order : StrictOrder str_lt
str_order = record { irrefl = str_lt_irrefl; trans = str_lt_trans; total = str_lt_total }

-- equal lengths follow from a permutation, so the early return changes nothing
module _ {ℓ} {A : Type ℓ} where
  length-permᴰ : {xs ys : List A} → Permᴰ xs ys → length xs ≡ length ys
  length-permᴰ Permᴰ.nil = refl
  length-permᴰ (Permᴰ.cons e d) = ap suc (length-permᴰ d)
  length-permᴰ (Permᴰ.swap e f) = refl
  length-permᴰ (Permᴰ.trans d e) = length-permᴰ d ∙ length-permᴰ e

  length-eq_of_perm : {xs ys : List A} → Perm xs ys → length xs ≡ length ys
  length-eq_of_perm p = ∥∥₁_elim p (ℕ_set _ _) length-permᴰ

module _ {ℓ} {A : Type ℓ} {eq lt : A → A → Bool} (law : (a b : A) → (eq a b ≡ true) ↔ (a ≡ b))
    (order : StrictOrder lt) (set : IsSet (List A)) where
  match_iff :
      (xs ys : List A)
      → ((if not (length xs == length ys) then false else elements_eq eq (sort lt xs) (sort lt ys))
          ≡ true)
        ↔ Perm xs ys
  match_iff xs ys = (
    λ h. (perm_iff_sort-eq order set xs ys).1 ((elements_eq_iff law _ _).0 (ground arith)),
    λ p. ground (
      arith,
      length-eq_of_perm p,
      (elements_eq_iff law _ _).1 ((perm_iff_sort-eq order set xs ys).0 p),
    ),
  )

-- Two lists of strings match exactly when one is a permutation of the other.
pub strings_match_iff : (xs ys : List Str) → (strings_match xs ys ≡ true) ↔ Perm xs ys
unfolding strings_match
strings_match_iff xs ys = match_iff str_eq_iff str_order str_set xs ys

-- What the reconciler holds against an entry: the entry `old` of the server serves as the declared
-- `new`, where a field that the server does not support is passed over.
pub record IsUpToDate {sp : Spiffe} (new old : Entry sp) (unsupported : FieldSet) : Type 0 where
  pub x509_svid_ttl : old.x509_svid_ttl ≡ new.x509_svid_ttl
  pub jwt_svid_ttl : unsupported jwt_svid_ttl_field ≡ false → old.jwt_svid_ttl ≡ new.jwt_svid_ttl
  pub federates_with : Perm old.federates_with new.federates_with
  pub admin : old.admin ≡ new.admin
  pub downstream : old.downstream ≡ new.downstream
  pub dns_names : Perm old.dns_names new.dns_names
  pub hint : unsupported hint_field ≡ false → old.hint ≡ new.hint
  pub store_svid : unsupported store_svid_field ≡ false → old.store_svid ≡ new.store_svid

module _ {sp : Spiffe} (laws : SpiffeLaws sp) where
  -- Two lists of trust domains match exactly when one is a permutation of the other.
  pub trust_domains_match_iff :
      (xs ys : List sp.TrustDomain) → (trust_domains_match sp xs ys ≡ true) ↔ Perm xs ys
  unfolding trust_domains_match
  trust_domains_match_iff xs ys = match_iff laws.td_eq_iff (td_order laws) (td_list_set laws) xs ys

  none-IsUpToDate :
      (new old : Entry sp) (unsupported : FieldSet)
      → outdated_entry_fields sp new old unsupported ≡ []
      → IsUpToDate new old unsupported
  unfolding outdated_entry_fields
  none-IsUpToDate new old u h = record {
    x509_svid_ttl = ground (arith, eqb_ℤ_iff old.x509_svid_ttl new.x509_svid_ttl);
    jwt_svid_ttl = λ s. ground (arith, eqb_ℤ_iff old.jwt_svid_ttl new.jwt_svid_ttl);
    federates_with = (trust_domains_match_iff _ _).0 (ground arith);
    admin = ground arith;
    downstream = ground arith;
    dns_names = (strings_match_iff _ _).0 (ground arith);
    hint = λ s. ground (arith, str_eq_iff old.hint new.hint);
    store_svid = λ s. ground arith;
  }

  IsUpToDate-none :
      (new old : Entry sp) (unsupported : FieldSet)
      → IsUpToDate new old unsupported
      → outdated_entry_fields sp new old unsupported ≡ []
  unfolding outdated_entry_fields
  IsUpToDate-none new old u h = ground (
    arith,
    eqb_ℤ_iff old.x509_svid_ttl new.x509_svid_ttl,
    eqb_ℤ_iff old.jwt_svid_ttl new.jwt_svid_ttl,
    str_eq_iff old.hint new.hint,
    (trust_domains_match_iff _ _).1 h.federates_with,
    (strings_match_iff _ _).1 h.dns_names,
  )

  -- No field is outdated exactly when the entry on the server serves as the declared one: lists of
  -- DNS names and trust domains are compared without their order, and the three fields that a server
  -- may lack are passed over when it does not support them.
  pub outdated_none_iff :
      (new old : Entry sp) (unsupported : FieldSet)
      → (outdated_entry_fields sp new old unsupported ≡ []) ↔ IsUpToDate new old unsupported
  outdated_none_iff new old u = (none-IsUpToDate new old u, IsUpToDate-none new old u)
