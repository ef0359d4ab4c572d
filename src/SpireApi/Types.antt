-- ===== src/SpireApi/Types.antt =====
-- pkg/spireapi/types.go and the constants of entryapi.go: the data that the reconcilers exchange
-- with the SPIRE server.
use spire_controller_manager.Prelude.{ℕ, Str, str_eq, Bool, true, false, List, Option, ◌&&◌}
use spire_controller_manager.Prelude.Int.{ℤ}
use spire_controller_manager.Spiffe.{Spiffe}

pub record Selector : Type 0 where
  pub type : Str
  pub value : Str

-- A time.Duration is its number of nanoseconds.
pub record Entry (sp : Spiffe) : Type 0 where
  pub id : Str
  pub spiffe_id : sp.SpiffeId
  pub parent_id : sp.SpiffeId
  pub selectors : List Selector
  pub x509_svid_ttl : ℤ
  pub jwt_svid_ttl : ℤ
  pub federates_with : List sp.TrustDomain
  pub admin : Bool
  pub downstream : Bool
  pub dns_names : List Str
  pub hint : Str
  pub store_svid : Bool

pub data Field : Type 0 where
  admin_field dns_names_field downstream_field federates_with_field : Field
  hint_field jwt_svid_ttl_field store_svid_field x509_svid_ttl_field : Field

-- A map[Field]struct{}: which fields are in it.
abbrev pub FieldSet : Type 0
FieldSet = Field → Bool

-- codes.Code of google.golang.org/grpc, a uint32, and the codes that the program tells apart.
abbrev pub Code : Type 0
Code = ℕ

abbrev pub code_ok : Code
code_ok = 0

abbrev pub code_unknown : Code
code_unknown = 2

abbrev pub code_not_found : Code
code_not_found = 5

abbrev pub code_already_exists : Code
code_already_exists = 6

pub record Status : Type 0 where
  pub code : Code
  pub message : Str

-- The implementations of BundleEndpointProfile: each of the two structs as a value or by pointer.
pub data BundleEndpointProfile (sp : Spiffe) : Type 0 where
  https_web https_web_pointer : BundleEndpointProfile sp
  https_spiffe https_spiffe_pointer : sp.SpiffeId → BundleEndpointProfile sp

pub record FederationRelationship (sp : Spiffe) (Bundle : Type 0) : Type 0 where
  pub trust_domain : sp.TrustDomain
  pub bundle_endpoint_url : Str
  pub bundle_endpoint_profile : BundleEndpointProfile sp
  pub trust_domain_bundle : Option Bundle

module _ (sp : Spiffe) where
  -- Equal of HTTPSWebProfile and of HTTPSSPIFFEProfile. A pointer has the methods of its value.
  unfoldable pub profile_equal : BundleEndpointProfile sp → BundleEndpointProfile sp → Bool
  profile_equal https_web https_web = true
  profile_equal https_web https_web_pointer = true
  profile_equal https_web_pointer https_web = true
  profile_equal https_web_pointer https_web_pointer = true
  profile_equal (https_spiffe a) (https_spiffe b) = sp.id_eq a b
  profile_equal (https_spiffe a) (https_spiffe_pointer b) = sp.id_eq a b
  profile_equal (https_spiffe_pointer a) (https_spiffe b) = sp.id_eq a b
  profile_equal (https_spiffe_pointer a) (https_spiffe_pointer b) = sp.id_eq a b
  profile_equal _ _ = false

  unfoldable pub relationship_equal :
      {B : Type 0} → FederationRelationship sp B → FederationRelationship sp B → Bool
  unfolding profile_equal
  relationship_equal fr other =
      sp.td_eq fr.trust_domain other.trust_domain
      && str_eq fr.bundle_endpoint_url other.bundle_endpoint_url
      && profile_equal fr.bundle_endpoint_profile other.bundle_endpoint_profile
