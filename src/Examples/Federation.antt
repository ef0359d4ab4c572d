-- ===== src/Examples/Federation.antt =====
-- Federation relationships.
use spire_controller_manager.Prelude.{
  Option, true, false, ℕ, Str, str_eq, codes, List, [], ◌∷◌, none, some, ◌≡◌, ◌↔◌, refl, All, sym,
  ap, some-injective, any, if◌then◌else◌,
}
use spire_controller_manager.SpireApi.Types.{FederationRelationship, https_web}
use spire_controller_manager.SpireFederationRelationship.{
  find, ClusterFederatedTrustDomain, TrustDomainClient, in_class, declare_all,
  parse_cluster_federated_trust_domain_spec, to_delete, to_create, to_update, put_all, reconcile,
  list_cluster_federated_trust_domains,
}
use spire_controller_manager.SpireFederationRelationship.Planned.{created, updated, Agrees}
use spire_controller_manager.SpireFederationRelationship.Refinement.{Honours, reconcile-Agrees}
use mathlib.Core.Path.{subst}
use spire_controller_manager.SpireFederationRelationship.Agreement.{
  IsKnown, IsServed, plan_nothing_iff,
}
use spire_controller_manager.SpireFederationRelationship.Oldest.{IsOther, declare_all-oldest}
use spire_controller_manager.SpireApi.Convert.{Url}
use spire_controller_manager.Prelude.Int.{pos}
use spire_controller_manager.Examples.Fixtures.{plain, plain_laws}

abbrev relationship : Str → Str → FederationRelationship plain ℕ
relationship td url = record {
  trust_domain = td;
  bundle_endpoint_url = url;
  bundle_endpoint_profile = https_web;
  trust_domain_bundle = none;
}

abbrev held : List (FederationRelationship plain ℕ)
held = relationship (codes "b.org") (codes "https://b") ∷ []

abbrev wanted : List (FederationRelationship plain ℕ)
wanted = relationship (codes "c.org") (codes "https://c") ∷ held

plan_nothing_iff_example :
    ((to_delete held wanted ≡ []) × (to_create held wanted ≡ []) × (to_update held wanted ≡ []))
    ↔ (All (IsKnown wanted) held × All (IsServed held) wanted)
plan_nothing_iff_example = plan_nothing_iff held wanted

abbrev parse_url : Str → Option Url
parse_url s = some (record { scheme = codes "https"; host = s; has_user = false })

abbrev read_bundle : Str → Str → Option ℕ
read_bundle td s = none

abbrev client : TrustDomainClient plain ℕ ℕ
client = record {
  list_federation_relationships = λ w. (some [], w);
  create_federation_relationships = λ frs w. (none, w);
  update_federation_relationships = λ frs w. (none, w);
  delete_federation_relationships = λ tds w. (none, w);
}

abbrev object_for : Str → Str → ClusterFederatedTrustDomain
object_for td url = record {
  spec = record {
    trust_domain = td;
    bundle_endpoint_url = url;
    profile_type = codes "https_web";
    endpoint_spiffe_id = [];
    trust_domain_bundle = [];
    class_name = [];
  };
  creation_timestamp = pos 0;
  uid = [];
}

-- an object without a URL is invalid
invalid :
    IsOther plain_laws parse_url read_bundle [] true client
      (λ w. (some [], w))
      (λ m. m)
      (codes "b.org")
      (object_for (codes "b.org") [])
unfolding parse_cluster_federated_trust_domain_spec
invalid fr y e = cc e

-- a valid object of another class
abbrev of_other_class : ClusterFederatedTrustDomain
of_other_class = record (object_for (codes "b.org") (codes "https://other")) {
  spec = record ((object_for (codes "b.org") (codes "https://other")).spec) {
    class_name = codes "other";
  };
}

foreign :
    IsOther plain_laws parse_url read_bundle [] true client
      (λ w. (some [], w))
      (λ m. m)
      (codes "b.org")
      of_other_class
unfolding in_class str_eq
foreign fr y e = cc y

declare_all-oldest_example :
    find (codes "b.org") (
      declare_all {sp = plain} parse_url read_bundle [] true client
        (λ w. (some [], w))
        (λ m. m)
        (of_other_class
          ∷ object_for (codes "b.org") []
          ∷ object_for (codes "b.org") (codes "https://b")
          ∷ object_for (codes "b.org") (codes "https://other")
          ∷ [])
        [])
    ≡ some (relationship (codes "b.org") (codes "https://b"))
unfolding in_class parse_cluster_federated_trust_domain_spec str_eq
declare_all-oldest_example =
    declare_all-oldest plain_laws parse_url read_bundle [] true client (λ w. (some [], w)) (λ m. m)
      (of_other_class ∷ object_for (codes "b.org") [] ∷ [])
      (object_for (codes "b.org") (codes "https://other") ∷ [])
      (object_for (codes "b.org") (codes "https://b"))
      (relationship (codes "b.org") (codes "https://b")) (foreign, (invalid, tt)) refl refl

-- A server as a map, which can be listed as long as it is as it was at first.
abbrev Fr : Type 0
Fr = FederationRelationship plain ℕ

record World : Type 0 where
  view : Str → Option Fr
  listing : Option ((l : List Fr) × ((td : Str) → find {sp = plain} td (put_all l []) ≡ view td))

listed :
    {view : Str → Option Fr}
    → Option ((l : List Fr) × ((td : Str) → find {sp = plain} td (put_all l []) ≡ view td))
    → Option (List Fr)
listed none = none
listed (some p) = some (p.0)

listed_all :
    {view : Str → Option Fr}
    (o : Option ((l : List Fr) × ((td : Str) → find {sp = plain} td (put_all l []) ≡ view td)))
    (l : List Fr)
    → listed o ≡ some l
    → (td : Str) → find {sp = plain} td (put_all l []) ≡ view td
unfolding listed
listed_all none l e = cc
listed_all {view} (some p) l e =
    subst (λ m. (td : Str) → find {sp = plain} td (put_all m []) ≡ view td) (some-injective e) (p.1)

abbrev obedient : TrustDomainClient plain ℕ World
obedient = record {
  list_federation_relationships = λ w. (listed w.listing, w);
  create_federation_relationships = λ frs w. (
    some [],
    record { view = λ td. created (find {sp = plain} td frs) (w.view td); listing = none },
  );
  update_federation_relationships = λ frs w. (
    some [],
    record { view = λ td. updated (find {sp = plain} td frs) (w.view td); listing = none },
  );
  delete_federation_relationships = λ tds w. (
    some [],
    record { view = λ td. if any (λ t. str_eq t td) tds then none else w.view td; listing = none },
  );
}

obeys : Honours obedient (λ w. w.view)
obeys = record {
  lists =
      λ w w' l e td. (listed_all w.listing l (ap (λ r. r.0) e) td, ap (λ r. r.1.view td) (sym e));
  deletes = λ tds w td. refl;
  creates = λ frs w td. refl;
  updates = λ frs w td. refl;
}

abbrev at_first : List Fr
at_first =
    relationship (codes "b.org") (codes "https://old")
    ∷ relationship (codes "x.org") (codes "https://x")
    ∷ []

abbrev world : World
world = record {
  view = λ td. find {sp = plain} td (put_all at_first []);
  listing = some (at_first, λ td. refl);
}

abbrev list_objects : World → Option (List ClusterFederatedTrustDomain) × World
list_objects w = (some (object_for (codes "b.org") (codes "https://b") ∷ []), w)

objects_declared :
    list_cluster_federated_trust_domains {sp = plain} parse_url read_bundle [] true obedient
      list_objects
      (λ m. m)
      world
    ≡ (some (relationship (codes "b.org") (codes "https://b") ∷ []), world)
unfolding list_cluster_federated_trust_domains in_class parse_cluster_federated_trust_domain_spec
    str_eq
objects_declared = refl

relationships_listed : obedient.list_federation_relationships world ≡ (some at_first, world)
unfolding listed
relationships_listed = refl

reconcile-Agrees_example :
    Agrees
      (find {sp = plain} (codes "b.org") (relationship (codes "b.org") (codes "https://b") ∷ []))
      ((reconcile {sp = plain} parse_url read_bundle [] true obedient list_objects
          (λ m. m)
          world).view
        (codes "b.org"))
reconcile-Agrees_example =
    reconcile-Agrees plain_laws parse_url read_bundle [] true obedient list_objects (λ m. m)
      (λ w. w.view) obeys record { keys = λ m h. h; same = λ m td h. refl } world world world
      at_first (relationship (codes "b.org") (codes "https://b") ∷ []) relationships_listed
      objects_declared (λ td. refl) (codes "b.org")
