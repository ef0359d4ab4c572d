-- ===== src/SpireFederationRelationship/Oldest.antt =====
-- Of the declarations of one trust domain the oldest valid one is taken.
use spire_controller_manager.Prelude.{
  Str, Bool, true, false, List, [], ◌∷◌, ◌++◌, Option, none, some, if◌then◌else◌, ◌≡◌, inl, inr,
  refl, ◌∙◌, All, Bool-cases,
}
use spire_controller_manager.Spiffe.{Spiffe, SpiffeLaws}
use spire_controller_manager.SpireApi.Types.{FederationRelationship}
use spire_controller_manager.SpireApi.Convert.{Url}
use spire_controller_manager.SpireFederationRelationship.{
  ClusterFederatedTrustDomain, TrustDomainClient, find, put_new, keep_first, in_class, declare_all,
  parse_cluster_federated_trust_domain_spec,
}
use spire_controller_manager.SpireFederationRelationship.Agreement.{find-put, keep_first-keeps}

module _ {sp : Spiffe} {B W : Type 0} (laws : SpiffeLaws sp) (parse_url : Str → Option Url)
    (read_bundle : sp.TrustDomain → Str → Option B) (class_name : Str) (watch_classless : Bool)
    (client : TrustDomainClient sp B W)
    (list_cftds : W → Option (List ClusterFederatedTrustDomain) × W)
    (range : List (FederationRelationship sp B) → List (FederationRelationship sp B)) where
  abbrev parsed : ClusterFederatedTrustDomain → Option (FederationRelationship sp B)
  parsed c = parse_cluster_federated_trust_domain_spec parse_url read_bundle c.spec

  -- the object is of another class, invalid, or declares another trust domain
  abbrev pub IsOther : sp.TrustDomain → ClusterFederatedTrustDomain → Type 0
  IsOther td c =
      (fr : FederationRelationship sp B)
      → in_class parse_url read_bundle class_name watch_classless client list_cftds range
          c.spec.class_name
        ≡ true
      → parse_cluster_federated_trust_domain_spec parse_url read_bundle c.spec ≡ some fr
      → sp.td_eq fr.trust_domain td ≡ false

  abbrev declared_from :
      List ClusterFederatedTrustDomain
      → List (FederationRelationship sp B)
      → List (FederationRelationship sp B)
  declared_from =
      declare_all parse_url read_bundle class_name watch_classless client list_cftds range

  abbrev ours : ClusterFederatedTrustDomain → Bool
  ours c =
      in_class parse_url read_bundle class_name watch_classless client list_cftds range
        c.spec.class_name

  put_new-other :
      (o : Option (FederationRelationship sp B)) (fr : FederationRelationship sp B)
      (td : sp.TrustDomain) (m : List (FederationRelationship sp B))
      → sp.td_eq fr.trust_domain td ≡ false
      → find td (put_new o fr m) ≡ find td m
  unfolding put_new
  put_new-other none fr td m h = find-put laws td fr m ∙ rw h refl
  put_new-other (some g) fr td m h = refl

  keep_first-other :
      (o : Option (FederationRelationship sp B)) (td : sp.TrustDomain)
      (m : List (FederationRelationship sp B))
      → ((fr : FederationRelationship sp B) → o ≡ some fr → sp.td_eq fr.trust_domain td ≡ false)
      → find td (keep_first o m) ≡ find td m
  unfolding keep_first
  keep_first-other none td m h = refl
  keep_first-other (some fr) td m h = put_new-other (find fr.trust_domain m) fr td m (h fr refl)

  kept :
      (cs : List ClusterFederatedTrustDomain) (td : sp.TrustDomain)
      (m : List (FederationRelationship sp B)) (g : FederationRelationship sp B)
      → find td m ≡ some g
      → find td (declared_from cs m) ≡ some g
  unfolding declare_all
  kept [] td m g h = h
  kept (c ∷ cs) td m g h = elim (Bool-cases (ours c)) [
    | inl y ↦
        rw y (kept cs td (keep_first (parsed c) m) g (keep_first-keeps laws (parsed c) td m g h))
    | inr n ↦ rw n (kept cs td m g h)
  ]

  taken :
      (fr : FederationRelationship sp B) (m : List (FederationRelationship sp B))
      → find fr.trust_domain m ≡ none
      → find fr.trust_domain (keep_first (some fr) m) ≡ some fr
  unfolding keep_first put_new
  taken fr m h = rw h (
      find-put laws fr.trust_domain fr m
      ∙ rw ((laws.td_eq_iff fr.trust_domain fr.trust_domain).1 refl) refl)

  oldest-here :
      (cs : List ClusterFederatedTrustDomain) (c : ClusterFederatedTrustDomain)
      (fr : FederationRelationship sp B) (m : List (FederationRelationship sp B))
      → ours c ≡ true
      → parsed c ≡ some fr
      → find fr.trust_domain m ≡ none
      → find fr.trust_domain (declared_from (c ∷ cs) m) ≡ some fr
  unfolding declare_all
  oldest-here cs c fr m y p n =
      rw (y, p) (kept cs fr.trust_domain (keep_first (some fr) m) fr (taken fr m n))

  oldest-from :
      (olders cs : List ClusterFederatedTrustDomain) (c : ClusterFederatedTrustDomain)
      (fr : FederationRelationship sp B) (m : List (FederationRelationship sp B))
      → All (IsOther fr.trust_domain) olders
      → ours c ≡ true
      → parsed c ≡ some fr
      → find fr.trust_domain m ≡ none
      → find fr.trust_domain (declared_from (olders ++ c ∷ cs) m) ≡ some fr
  unfolding declare_all
  oldest-from [] cs c fr m a y p n = oldest-here cs c fr m y p n
  oldest-from (o ∷ olders) cs c fr m a y p n =
      oldest-from olders cs c fr (if ours o then keep_first (parsed o) m else m) a.1 y p
        (elim (Bool-cases (ours o)) [
          | inl z ↦ rw z (keep_first-other (parsed o) fr.trust_domain m (λ g. a.0 g z) ∙ n)
          | inr z ↦ rw z n
        ])

  -- In the order in which the objects are taken, the first valid object of the reconciler's class for
  -- a trust domain gives the relationship: those before it are of another class, invalid or for
  -- other trust domains, and whatever comes after it changes nothing.
  pub declare_all-oldest :
      (olders cs : List ClusterFederatedTrustDomain) (c : ClusterFederatedTrustDomain)
      (fr : FederationRelationship sp B)
      → All (IsOther fr.trust_domain) olders
      → in_class parse_url read_bundle class_name watch_classless client list_cftds range
          c.spec.class_name
        ≡ true
      → parse_cluster_federated_trust_domain_spec parse_url read_bundle c.spec ≡ some fr
      → find fr.trust_domain (
          declare_all parse_url read_bundle class_name watch_classless client list_cftds range
            (olders ++ c ∷ cs)
            [])
        ≡ some fr
  unfolding find
  declare_all-oldest olders cs c fr a y p = oldest-from olders cs c fr [] a y p refl
