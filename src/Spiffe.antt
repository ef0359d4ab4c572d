-- ===== src/Spiffe.antt =====
-- The package spiffeid of go-spiffe, which the program calls and does not contain: SPIFFE IDs and
-- trust domain names are opaque values behind these operations.
use mathlib.Core.HLevel.{hedberg}
use spire_controller_manager.Prelude.{
  Str, str_lt, str_lt_irrefl, str_lt_trans, str_lt_total, ◌≡◌, ◌↔◌, Bool, true, false, Option, some,
  sym, ◌∙◌, List, inl, inr, Bool-cases, arith,
}
use spire_controller_manager.Prelude.Sort.{StrictOrder}

pub record Spiffe : Type 1 where
  pub SpiffeId : Type 0
  pub TrustDomain : Type 0
  -- id.String(), id.Path(), id.TrustDomain()
  pub id_string : SpiffeId → Str
  pub id_path : SpiffeId → Str
  pub id_trust_domain : SpiffeId → TrustDomain
  -- the operator == on the two struct types
  pub id_eq : SpiffeId → SpiffeId → Bool
  pub td_eq : TrustDomain → TrustDomain → Bool
  -- td.Name(), td.IsZero(), and td.Compare(other) < 0
  pub td_name : TrustDomain → Str
  pub td_is_zero : TrustDomain → Bool
  pub td_lt : TrustDomain → TrustDomain → Bool
  -- FromString, FromPath and TrustDomainFromString; none for an error
  pub id_from_string : Str → Option SpiffeId
  pub id_from_path : TrustDomain → Str → Option SpiffeId
  pub td_from_string : Str → Option TrustDomain

-- What the package documents: == is equality, Compare is lexicographic on names, a trust domain is
-- its name, and a value that is not zero is read back from its parts. The zero ones are not: there
-- the functions return an error.
pub record SpiffeLaws (sp : Spiffe) : Type 0 where
  pub id_eq_iff : (a b : sp.SpiffeId) → (sp.id_eq a b ≡ true) ↔ (a ≡ b)
  pub td_eq_iff : (a b : sp.TrustDomain) → (sp.td_eq a b ≡ true) ↔ (a ≡ b)
  pub td_lt_names : (a b : sp.TrustDomain) → sp.td_lt a b ≡ str_lt (sp.td_name a) (sp.td_name b)
  pub td_name_injective : (a b : sp.TrustDomain) → sp.td_name a ≡ sp.td_name b → a ≡ b
  pub td_from_name :
      (a : sp.TrustDomain) → sp.td_is_zero a ≡ false → sp.td_from_string (sp.td_name a) ≡ some a
  pub id_from_parts :
      (a : sp.SpiffeId)
      → sp.td_is_zero (sp.id_trust_domain a) ≡ false
      → sp.id_from_path (sp.id_trust_domain a) (sp.id_path a) ≡ some a

module _ {sp : Spiffe} (laws : SpiffeLaws sp) where
  td_dec : Discrete sp.TrustDomain
  td_dec a b = elim (Bool-cases (sp.td_eq a b)) [
    | inl e ↦ yes ((laws.td_eq_iff a b).0 e)
    | inr e ↦ no (λ p. cc ((laws.td_eq_iff a b).1 p))
  ]

  pub td_list_set : IsSet (List sp.TrustDomain)
  td_list_set = hlevel (hedberg td_dec)

  pub td_order : StrictOrder sp.td_lt
  td_order = record {
    irrefl = λ a. laws.td_lt_names a a ∙ str_lt_irrefl (sp.td_name a);
    trans = λ a b c h k. ground (
      arith,
      laws.td_lt_names a b,
      laws.td_lt_names b c,
      laws.td_lt_names a c,
      str_lt_trans (sp.td_name a) (sp.td_name b) (sp.td_name c),
    );
    total = λ a b h k.
        laws.td_name_injective a b
          (str_lt_total _ _ (sym (laws.td_lt_names a b) ∙ h) (sym (laws.td_lt_names b a) ∙ k));
  }
