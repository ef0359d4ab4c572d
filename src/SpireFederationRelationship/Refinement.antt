-- ===== src/SpireFederationRelationship/Refinement.antt =====
-- A pass over the federation relationships against its abstract view: the server as a map from trust
-- domains to relationships, which a pass turns into the declared one.
use spire_controller_manager.Prelude.{
  Str, Bool, ◌&&◌, not, List, [], ◌∷◌, Option, none, some, if◌then◌else◌, ◌≡◌, inl, inr, refl, ap,
  sym, ◌∙◌, any, map, Bool-cases, some-injective, >>=-some,
}
use mathlib.Core.Path.{subst}
use spire_controller_manager.Prelude.Sort.{sort}
use spire_controller_manager.Spiffe.{Spiffe, SpiffeLaws}
use spire_controller_manager.SpireApi.Types.{Status, FederationRelationship}
use spire_controller_manager.SpireApi.Convert.{Url}
use spire_controller_manager.SpireFederationRelationship.{
  TrustDomainClient, ClusterFederatedTrustDomain, find, put_all, in_class, to_delete, to_create,
  to_update, declare_all, list_cluster_federated_trust_domains, list_relationships, unless_empty,
  creation_less, apply, with_relationships, reconcile,
}
use spire_controller_manager.SpireFederationRelationship.Planned.{
  created, updated, created-none, updated-none, call_congr, is_some, IsMap, Agrees, changed_one,
  outcome, outcome-Agrees, any_deleted, find-to_create, find-to_update, put_all-IsMap,
  keep_first-IsMap,
}

-- A server that carries out what it is told: it lists every relationship once, and a call changes
-- the relationships of the trust domains that it names and no others. A creation leaves alone what
-- already exists, and an update does not create.
pub record Honours {sp : Spiffe} {B W : Type 0} (client : TrustDomainClient sp B W)
    (server : W → sp.TrustDomain → Option (FederationRelationship sp B)) : Type 0 where
  pub lists :
      (w w' : W) (l : List (FederationRelationship sp B))
      → client.list_federation_relationships w ≡ (some l, w')
      → (td : sp.TrustDomain)
      → (find td (put_all l []) ≡ server w td) × (server w' td ≡ server w td)
  pub deletes :
      (tds : List sp.TrustDomain) (w : W) (td : sp.TrustDomain)
      → server ((client.delete_federation_relationships tds w).1) td
        ≡ (if any (λ t. sp.td_eq t td) tds then none else server w td)
  pub creates :
      (frs : List (FederationRelationship sp B)) (w : W) (td : sp.TrustDomain)
      → server ((client.create_federation_relationships frs w).1) td
        ≡ created (find td frs) (server w td)
  pub updates :
      (frs : List (FederationRelationship sp B)) (w : W) (td : sp.TrustDomain)
      → server ((client.update_federation_relationships frs w).1) td
        ≡ updated (find td frs) (server w td)

-- A walk over a map visits each key once, with its value.
pub record Walks {sp : Spiffe} {B : Type 0}
    (range : List (FederationRelationship sp B) → List (FederationRelationship sp B)) : Type 0 where
  pub keys : (m : List (FederationRelationship sp B)) → IsMap m → IsMap (range m)
  pub same :
      (m : List (FederationRelationship sp B)) (td : sp.TrustDomain)
      → IsMap m
      → find td (range m) ≡ find td m

module _ {sp : Spiffe} (laws : SpiffeLaws sp) {B W : Type 0} (parse_url : Str → Option Url)
    (read_bundle : sp.TrustDomain → Str → Option B) (class_name : Str) (watch_classless : Bool)
    (client : TrustDomainClient sp B W)
    (list_cftds : W → Option (List ClusterFederatedTrustDomain) × W)
    (range : List (FederationRelationship sp B) → List (FederationRelationship sp B))
    (server : W → sp.TrustDomain → Option (FederationRelationship sp B))
    (honours : Honours client server) (walks : Walks range) where
  declare_all-IsMap :
      (cs : List ClusterFederatedTrustDomain) (m : List (FederationRelationship sp B))
      → IsMap m
      → IsMap (
          declare_all parse_url read_bundle class_name watch_classless client list_cftds range cs m)
  unfolding declare_all
  declare_all-IsMap [] m h = h
  declare_all-IsMap (c ∷ cs) m h =
      declare_all-IsMap cs _
        (elim (Bool-cases (
          in_class parse_url read_bundle class_name watch_classless client list_cftds range
            c.spec.class_name)) [ inl y ↦ rw y (keep_first-IsMap laws _ m h) | inr n ↦ rw n h ])

  deleted :
      (frs : List (FederationRelationship sp B)) (w : W) (td : sp.TrustDomain)
      → server
          (unless_empty parse_url read_bundle class_name watch_classless client list_cftds range frs
            (λ frs. client.delete_federation_relationships (map (λ fr. fr.trust_domain) frs))
            w)
          td
        ≡ (if any (λ t. sp.td_eq t td) (map (λ fr. fr.trust_domain) frs) then none else server w td)
  unfolding unless_empty any
  deleted [] w td = refl
  deleted (fr ∷ frs) w td = honours.deletes (map (λ fr. fr.trust_domain) (fr ∷ frs)) w td

  called :
      (effect : Option (FederationRelationship sp B)
        → Option (FederationRelationship sp B)
        → Option (FederationRelationship sp B))
      → ((old : Option (FederationRelationship sp B)) → effect none old ≡ old)
      → (call : List (FederationRelationship sp B) → W → Option (List Status) × W)
      → ((frs : List (FederationRelationship sp B)) (w : W) (td : sp.TrustDomain)
          → server ((call frs w).1) td ≡ effect (find td frs) (server w td))
      → (frs : List (FederationRelationship sp B)) (w : W) (td : sp.TrustDomain)
      → server
          (unless_empty parse_url read_bundle class_name watch_classless client list_cftds range frs
            call w)
          td
        ≡ effect (find td frs) (server w td)
  unfolding unless_empty find
  called effect idle call law [] w td = sym (idle (server w td))
  called effect idle call law (fr ∷ frs) w td = law (fr ∷ frs) w td

  -- what the three calls leave of a trust domain
  apply-outcome :
      (current declared : List (FederationRelationship sp B)) (w : W) (td : sp.TrustDomain)
      → IsMap current
      → IsMap declared
      → server w td ≡ find td current
      → server
          (apply parse_url read_bundle class_name watch_classless client list_cftds range current
            (some declared, w))
          td
        ≡ outcome (find td current) (find td declared)
  unfolding apply outcome
  apply-outcome current declared w td c d e =
      called updated updated-none client.update_federation_relationships honours.updates
        (to_update current (range declared)) _ td
      ∙ call_congr updated
          (find-to_update laws td current (range declared) (walks.keys declared d)
            ∙ ap (changed_one (find td current)) (walks.same declared td d))
          (called created created-none client.create_federation_relationships honours.creates
              (to_create current (range declared)) _ td
            ∙ call_congr created
                (find-to_create laws td current (range declared)
                  ∙ ap (λ x. if is_some (find td current) then none else x)
                      (walks.same declared td d))
                (deleted (to_delete (range current) declared) w td
                  ∙ (ap (λ b. if b then none else server w td)
                        (any_deleted laws td (range current) declared
                          ∙ ap (λ x. is_some x && not (is_some (find td declared)))
                              (walks.same current td c))
                      ∙ ap
                          (λ x.
                            if is_some (find td current) && not (is_some (find td declared))
                            then none
                            else x)
                          e)))

  list_cluster_federated_trust_domains-IsMap :
      (w w' : W) (declared : List (FederationRelationship sp B))
      → list_cluster_federated_trust_domains parse_url read_bundle class_name watch_classless client
          list_cftds range w
        ≡ (some declared, w')
      → IsMap declared
  unfolding list_cluster_federated_trust_domains
  list_cluster_federated_trust_domains-IsMap w w' declared h =
      let (cs, _, e) = >>=-some ((list_cftds w).0) _ (ap (λ r. r.0) h) in
      subst IsMap (some-injective e) (declare_all-IsMap (sort creation_less cs) [] tt)

  -- A pass makes the server what is declared: where both lists succeed, and the server carries out
  -- what it is told, then for each trust domain the server has the declared relationship or one that
  -- is Equal to it, and no relationship of any other trust domain.
  pub reconcile-Agrees :
      (w w1 w2 : W) (l declared : List (FederationRelationship sp B))
      → client.list_federation_relationships w ≡ (some l, w1)
      → list_cluster_federated_trust_domains parse_url read_bundle class_name watch_classless client
          list_cftds range w1
        ≡ (some declared, w2)
      → ((td : sp.TrustDomain) → server w2 td ≡ server w1 td)
      → (td : sp.TrustDomain)
      → Agrees (find td declared) (
          server
            (reconcile parse_url read_bundle class_name watch_classless client list_cftds range w)
            td)
  unfolding reconcile list_relationships with_relationships
  reconcile-Agrees w w1 w2 l declared e f same td =
      rw
        (
          e,
          f,
          apply-outcome (put_all l []) declared w2 td (put_all-IsMap laws l [] tt)
              (list_cluster_federated_trust_domains-IsMap w1 w2 declared f)
              (same td ∙ (honours.lists w w1 l e td).1 ∙ sym ((honours.lists w w1 l e td).0)),
        )
        (outcome-Agrees (find td (put_all l [])) (find td declared))
