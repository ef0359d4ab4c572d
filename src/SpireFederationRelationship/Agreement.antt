-- ===== src/SpireFederationRelationship/Agreement.antt =====
-- When a pass over the federation relationships has nothing to do, and which declaration wins.
use spire_controller_manager.Prelude.{
  true, List, [], ◌∷◌, Option, none, some, if◌then◌else◌, ◌≡◌, ◌↔◌, inl, inr, refl, ap, sym, ◌∙◌,
  arith, All, Bool-cases, some-injective,
}
use spire_controller_manager.Spiffe.{Spiffe, SpiffeLaws}
use spire_controller_manager.SpireApi.Types.{FederationRelationship, relationship_equal}
use spire_controller_manager.SpireFederationRelationship.{
  find, put, put_new, keep_first, unless_found, if_changed, to_delete, to_create, to_update,
}

module _ {sp : Spiffe} {B : Type 0} where
  abbrev pub IsKnown : List (FederationRelationship sp B) → FederationRelationship sp B → Type 0
  IsKnown m fr = (g : FederationRelationship sp B) × (find fr.trust_domain m ≡ some g)

  -- the relationship of the trust domain in the map, which agrees with this one
  abbrev pub IsServed : List (FederationRelationship sp B) → FederationRelationship sp B → Type 0
  IsServed m fr =
      (g : FederationRelationship sp B) × (find fr.trust_domain m ≡ some g)
      × (relationship_equal sp g fr ≡ true)

  found_or :
      (o : Option (FederationRelationship sp B)) (fr : FederationRelationship sp B)
      (rest : List (FederationRelationship sp B))
      → (unless_found o fr rest ≡ [])
        ↔ (((g : FederationRelationship sp B) × (o ≡ some g)) × (rest ≡ []))
  unfolding unless_found
  found_or none fr rest = (λ h. cc h, λ h. cc h.0.1)
  found_or (some g) fr rest = (λ h. ((g, refl), h), λ h. h.1)

  served_or :
      (o : Option (FederationRelationship sp B)) (fr : FederationRelationship sp B)
      (c u : List (FederationRelationship sp B))
      → ((unless_found o fr c ≡ []) × (if_changed o fr u ≡ [])) ↔ (
          ((g : FederationRelationship sp B) × (o ≡ some g) × (relationship_equal sp g fr ≡ true))
          × ((c ≡ []) × (u ≡ [])))
  unfolding unless_found if_changed
  served_or none fr c u = (λ h. cc h.0, λ h. cc h.0.1)
  served_or (some g) fr c u = elim (Bool-cases (relationship_equal sp g fr)) [
    | inl y ↦ (
      λ h. ((g, refl, y), (h.0, sym (ap (λ b. if b then u else fr ∷ u) y) ∙ h.1)),
      λ h. (h.1.0, ap (λ b. if b then u else fr ∷ u) y ∙ h.1.1),
    )
    | inr n ↦ (
      λ h. cc (sym (ap (λ b. if b then u else fr ∷ u) n) ∙ h.1),
      λ h. cc (some-injective h.0.1, n, h.0.2),
    )
  ]

  deletes_none :
      (current declared : List (FederationRelationship sp B))
      → (to_delete current declared ≡ []) ↔ All (IsKnown declared) current
  unfolding to_delete
  deletes_none [] declared = (λ _. tt, λ _. refl)
  deletes_none (fr ∷ current) declared =
      let step = found_or (find fr.trust_domain declared) fr (to_delete current declared) in
      let rest = deletes_none current declared in
      (λ h. ((step.0 h).0, rest.0 (step.0 h).1), λ h. step.1 (h.0, rest.1 h.1))

  calls_none :
      (current declared : List (FederationRelationship sp B))
      → ((to_create current declared ≡ []) × (to_update current declared ≡ []))
        ↔ All (IsServed current) declared
  unfolding to_create to_update
  calls_none current [] = (λ _. tt, λ _. (refl, refl))
  calls_none current (fr ∷ declared) =
      let step =
        served_or (find fr.trust_domain current) fr (to_create current declared)
          (to_update current declared) in
      let rest = calls_none current declared in
      (λ h. ((step.0 h).0, rest.0 (step.0 h).1), λ h. step.1 (h.0, rest.1 h.1))

  -- A pass calls nothing exactly where the server agrees with what is declared: every relationship
  -- of the server has a declared trust domain, and every declared one is on the server and Equal.
  pub plan_nothing_iff :
      (current declared : List (FederationRelationship sp B))
      → ((to_delete current declared ≡ [])
          × (to_create current declared ≡ [])
          × (to_update current declared ≡ []))
        ↔ (All (IsKnown declared) current × All (IsServed current) declared)
  plan_nothing_iff current declared = (
    λ h. ((deletes_none current declared).0 h.0, (calls_none current declared).0 (h.1, h.2)),
    λ h. (
      (deletes_none current declared).1 h.0,
      ((calls_none current declared).1 h.1).0,
      ((calls_none current declared).1 h.1).1,
    ),
  )

  module _ (laws : SpiffeLaws sp) where
    pub find-put :
        (td : sp.TrustDomain) (fr : FederationRelationship sp B)
        (m : List (FederationRelationship sp B))
        → find td (put fr m) ≡ (if sp.td_eq fr.trust_domain td then some fr else find td m)
    unfolding find put
    find-put td fr [] = refl
    find-put td fr (g ∷ m) = ground (
      arith,
      laws.td_eq_iff fr.trust_domain td,
      laws.td_eq_iff g.trust_domain td,
      laws.td_eq_iff g.trust_domain fr.trust_domain,
      find-put td fr m,
    )

    -- A conflicting declaration changes nothing: what was found for a trust domain before, from an
    -- older object, is found after any further declaration.
    pub keep_first-keeps :
        (o : Option (FederationRelationship sp B)) (td : sp.TrustDomain)
        (m : List (FederationRelationship sp B)) (g : FederationRelationship sp B)
        → find td m ≡ some g
        → find td (keep_first o m) ≡ some g
    unfolding keep_first
    keep_first-keeps none td m g h = h
    keep_first-keeps (some fr) td m g h = kept (find fr.trust_domain m) refl
      where
        kept :
            (o : Option (FederationRelationship sp B))
            → find fr.trust_domain m ≡ o
            → find td (put_new o fr m) ≡ some g
        kept none e = find-put td fr m ∙ ground (arith, e, h, laws.td_eq_iff fr.trust_domain td)
        kept (some x) e = h
