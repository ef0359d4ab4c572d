-- ===== src/SpireFederationRelationship.antt =====
-- pkg/spirefederationrelationship/reconciler.go, and ParseClusterFederatedTrustDomainSpec of
-- api/v1alpha1/clusterfederatedtrustdomain_webhook.go.
pub mod Agreement
pub mod Oldest
pub mod Planned
pub mod Refinement
use spire_controller_manager.Prelude.{
  ℕ, Str, codes, str_eq, str_lt, Bool, true, false, not, ◌&&◌, ◌||◌, List, [], ◌∷◌, ◌++◌, Option,
  none, some, map, is_empty, if◌then◌else◌, ◌>>=◌, ◌>>◌, guard,
}
use spire_controller_manager.Prelude.Sort.{sort}
use spire_controller_manager.Prelude.Int.{ℤ, ltb_ℤ}
use spire_controller_manager.Spiffe.{Spiffe}
use spire_controller_manager.SpireApi.Types.{
  Status, FederationRelationship, BundleEndpointProfile, https_web, https_spiffe,
  relationship_equal,
}
use spire_controller_manager.SpireApi.Convert.{Url, validate_bundle_endpoint_url}

pub record ClusterFederatedTrustDomainSpec : Type 0 where
  pub trust_domain : Str
  pub bundle_endpoint_url : Str
  pub profile_type : Str
  pub endpoint_spiffe_id : Str
  pub trust_domain_bundle : Str
  pub class_name : Str

pub record ClusterFederatedTrustDomain : Type 0 where
  pub spec : ClusterFederatedTrustDomainSpec
  pub creation_timestamp : ℤ
  pub uid : Str

-- spireapi.TrustDomainClient
pub record TrustDomainClient (sp : Spiffe) (B W : Type 0) : Type 0 where
  pub list_federation_relationships : W → Option (List (FederationRelationship sp B)) × W
  pub create_federation_relationships :
      List (FederationRelationship sp B) → W → Option (List Status) × W
  pub update_federation_relationships :
      List (FederationRelationship sp B) → W → Option (List Status) × W
  pub delete_federation_relationships : List sp.TrustDomain → W → Option (List Status) × W

-- `read_bundle` is spiffebundle.Read for the trust domain.
module _ {sp : Spiffe} where
  parse_profile : Str → Str → Option (BundleEndpointProfile sp)
  parse_profile type id =
      if str_eq type (codes "https_web")
      then (guard (is_empty id) >> some https_web)
      else if str_eq type (codes "https_spiffe")
      then (sp.id_from_string id >>= λ i. some (https_spiffe i))
      else none

parse_bundle : {B : Type 0} → (Str → Option B) → Str → Option (Option B)
parse_bundle read [] = some none
parse_bundle read (c ∷ s) = read (c ∷ s) >>= λ b. some (some b)

module _ {sp : Spiffe} {B : Type 0} (parse_url : Str → Option Url)
    (read_bundle : sp.TrustDomain → Str → Option B) where
  unfoldable pub parse_cluster_federated_trust_domain_spec :
      ClusterFederatedTrustDomainSpec → Option (FederationRelationship sp B)
  unfolding parse_profile parse_bundle validate_bundle_endpoint_url
  parse_cluster_federated_trust_domain_spec spec = do
    td ← sp.td_from_string spec.trust_domain
    validate_bundle_endpoint_url parse_url spec.bundle_endpoint_url
    profile ← parse_profile spec.profile_type spec.endpoint_spiffe_id
    bundle ← parse_bundle (read_bundle td) spec.trust_domain_bundle
    some (record {
      trust_domain = td;
      bundle_endpoint_url = spec.bundle_endpoint_url;
      bundle_endpoint_profile = profile;
      trust_domain_bundle = bundle;
    })

-- A map keyed by trust domains is the list of its relationships: the key is their field.
module _ {sp : Spiffe} {B : Type 0} where
  unfoldable pub find :
      sp.TrustDomain → List (FederationRelationship sp B) → Option (FederationRelationship sp B)
  find td [] = none
  find td (fr ∷ m) = if sp.td_eq fr.trust_domain td then some fr else find td m

  -- out[fr.TrustDomain] = fr
  unfoldable pub put :
      FederationRelationship sp B
      → List (FederationRelationship sp B)
      → List (FederationRelationship sp B)
  put fr [] = fr ∷ []
  put fr (g ∷ m) =
      let rest = put fr m in if sp.td_eq g.trust_domain fr.trust_domain then fr ∷ m else g ∷ rest

  unfoldable pub put_all :
      List (FederationRelationship sp B)
      → List (FederationRelationship sp B)
      → List (FederationRelationship sp B)
  unfolding put
  put_all [] m = m
  put_all (fr ∷ frs) m = put_all frs (put fr m)

  put_new :
      Option (FederationRelationship sp B)
      → FederationRelationship sp B
      → List (FederationRelationship sp B)
      → List (FederationRelationship sp B)
  unfolding put
  put_new none fr m = put fr m
  put_new (some g) fr m = m

  -- if _, ok := out[…]; ok { continue }; an invalid declaration is none
  unfoldable pub keep_first :
      Option (FederationRelationship sp B)
      → List (FederationRelationship sp B)
      → List (FederationRelationship sp B)
  unfolding put_new find
  keep_first none m = m
  keep_first (some fr) m = put_new (find fr.trust_domain m) fr m

  -- fr is to be deleted, or created, where the other map does not have its trust domain
  unless_found :
      Option (FederationRelationship sp B)
      → FederationRelationship sp B
      → List (FederationRelationship sp B)
      → List (FederationRelationship sp B)
  unless_found none fr rest = fr ∷ rest
  unless_found (some g) fr rest = rest

  if_changed :
      Option (FederationRelationship sp B)
      → FederationRelationship sp B
      → List (FederationRelationship sp B)
      → List (FederationRelationship sp B)
  unfolding relationship_equal
  if_changed none fr rest = rest
  if_changed (some g) fr rest = if relationship_equal sp g fr then rest else fr ∷ rest

  -- toDelete, toCreate and toUpdate
  unfoldable pub to_delete :
      List (FederationRelationship sp B)
      → List (FederationRelationship sp B)
      → List (FederationRelationship sp B)
  unfolding find unless_found
  to_delete [] declared = []
  to_delete (fr ∷ current) declared =
      unless_found (find fr.trust_domain declared) fr (to_delete current declared)

  unfoldable pub to_create :
      List (FederationRelationship sp B)
      → List (FederationRelationship sp B)
      → List (FederationRelationship sp B)
  unfolding find unless_found
  to_create current [] = []
  to_create current (fr ∷ declared) =
      unless_found (find fr.trust_domain current) fr (to_create current declared)

  unfoldable pub to_update :
      List (FederationRelationship sp B)
      → List (FederationRelationship sp B)
      → List (FederationRelationship sp B)
  unfolding find if_changed
  to_update current [] = []
  to_update current (fr ∷ declared) =
      if_changed (find fr.trust_domain current) fr (to_update current declared)

-- the function that sort.Slice is given
creation_less : ClusterFederatedTrustDomain → ClusterFederatedTrustDomain → Bool
creation_less a b =
    if ltb_ℤ a.creation_timestamp b.creation_timestamp
    then true
    else if ltb_ℤ b.creation_timestamp a.creation_timestamp
    then false
    else str_lt a.uid b.uid

-- `range` is the order in which the maps are walked.
module _ {sp : Spiffe} {B W : Type 0} (parse_url : Str → Option Url)
    (read_bundle : sp.TrustDomain → Str → Option B) (class_name : Str) (watch_classless : Bool)
    (client : TrustDomainClient sp B W)
    (list_cftds : W → Option (List ClusterFederatedTrustDomain) × W)
    (range : List (FederationRelationship sp B) → List (FederationRelationship sp B)) where
  unfoldable pub in_class : Str → Bool
  in_class name = is_empty name && watch_classless || str_eq name class_name

  pub declare_all :
      List ClusterFederatedTrustDomain
      → List (FederationRelationship sp B)
      → List (FederationRelationship sp B)
  unfolding keep_first parse_cluster_federated_trust_domain_spec in_class
  declare_all [] m = m
  declare_all (c ∷ cs) m = declare_all cs (
      if in_class c.spec.class_name
      then keep_first (parse_cluster_federated_trust_domain_spec parse_url read_bundle c.spec) m
      else m)

  unfoldable pub list_cluster_federated_trust_domains :
      W → Option (List (FederationRelationship sp B)) × W
  unfolding declare_all sort creation_less
  list_cluster_federated_trust_domains w =
      let (cs, w') = list_cftds w in (cs >>= λ l. some (declare_all (sort creation_less l) []), w')

  list_relationships : W → Option (List (FederationRelationship sp B)) × W
  unfolding put_all
  list_relationships w =
      let (frs, w') = client.list_federation_relationships w in
      (frs >>= λ l. some (put_all l []), w')

  -- a call that is made where the list is not empty; its statuses are only logged
  unless_empty :
      List (FederationRelationship sp B)
      → (List (FederationRelationship sp B) → W → Option (List Status) × W)
      → W
      → W
  unless_empty [] call w = w
  unless_empty (fr ∷ frs) call w = (call (fr ∷ frs) w).1

  apply : List (FederationRelationship sp B) → Option (List (FederationRelationship sp B)) × W → W
  unfolding unless_empty to_delete to_create to_update
  apply current (none, w) = w
  apply current (some declared, w) =
      let w1 =
        unless_empty (to_delete (range current) declared)
          (λ frs. client.delete_federation_relationships (map (λ fr. fr.trust_domain) frs)) w in
      let w2 =
        unless_empty (to_create current (range declared)) client.create_federation_relationships
          w1 in
      unless_empty (to_update current (range declared)) client.update_federation_relationships w2

  with_relationships : Option (List (FederationRelationship sp B)) × W → W
  unfolding apply list_cluster_federated_trust_domains
  with_relationships (none, w) = w
  with_relationships (some current, w) = apply current (list_cluster_federated_trust_domains w)

  unfoldable pub reconcile : W → W
  unfolding with_relationships list_relationships
  reconcile w = with_relationships (list_relationships w)
