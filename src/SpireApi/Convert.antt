-- ===== src/SpireApi/Convert.antt =====
-- pkg/spireapi/types.go: the conversions from and to the messages of the SPIRE API, whose Go types
-- are generated. A message that may be nil is an Option; nil and empty lists are one.
pub mod Entries
pub mod Relationships
use spire_controller_manager.Prelude.{
  ℕ, ◌+◌, ◌-◌, ◌*◌, ◌/◌, ◌%◌, ◌^◌, Str, codes, contains_byte, Bool, true, false, not, List, Option,
  none, some, map, is_empty, ◌>>=◌, ◌>>◌, guard, traverse, option_traverse, str_eq,
}
use spire_controller_manager.Prelude.Int.{ℤ, pos, negsuc, quot, scale, to_int32, to_int64}
use spire_controller_manager.Spiffe.{Spiffe}
use spire_controller_manager.SpireApi.Types.{
  Entry, Selector, Status, Code, code_unknown, FederationRelationship, BundleEndpointProfile,
  https_web, https_web_pointer, https_spiffe, https_spiffe_pointer,
}

pub record ApiSpiffeId : Type 0 where
  pub trust_domain : Str
  pub path : Str

-- types.Entry of the SPIRE API; a TTL is an int32
pub record ApiEntry : Type 0 where
  pub id : Str
  pub spiffe_id : Option ApiSpiffeId
  pub parent_id : Option ApiSpiffeId
  pub selectors : List Selector
  pub x509_svid_ttl : ℤ
  pub jwt_svid_ttl : ℤ
  pub federates_with : List Str
  pub admin : Bool
  pub downstream : Bool
  pub dns_names : List Str
  pub hint : Str
  pub store_svid : Bool

-- types.Status of the SPIRE API; its code is an int32
pub record ApiStatus : Type 0 where
  pub code : ℤ
  pub message : Str

-- the nanoseconds of a second
abbrev pub second : ℕ
second = 1000000000

-- int32(d / time.Second)
unfoldable pub ttl_to_api : ℤ → ℤ
unfolding quot to_int32
ttl_to_api d = to_int32 (quot d second)

-- time.Duration(t) * time.Second
unfoldable pub ttl_from_api : ℤ → ℤ
unfolding scale to_int64
ttl_from_api t = to_int64 (scale t second)

-- codes.Code(c), a uint32
unfoldable pub code_from_api : ℤ → Code
code_from_api (pos n) = n % 2 ^ 32
code_from_api (negsuc n) = 2 ^ 32 - 1 - n % 2 ^ 32

unfoldable pub status_from_api : Option ApiStatus → Status
unfolding code_from_api
status_from_api none = record { code = code_unknown; message = codes "status is nil" }
status_from_api (some s) = record { code = code_from_api s.code; message = s.message }

unfoldable pub selector_from_api : Selector → Option Selector
unfolding contains_byte
selector_from_api s = do
  guard (not (is_empty s.type))
  guard (not (is_empty s.value))
  guard (not (contains_byte 58 s.type))
  some s

module _ (sp : Spiffe) where
  unfoldable pub spiffe_id_to_api : sp.SpiffeId → ApiSpiffeId
  spiffe_id_to_api i = record {
    trust_domain = sp.td_name (sp.id_trust_domain i);
    path = sp.id_path i;
  }

  unfoldable pub spiffe_id_from_api : Option ApiSpiffeId → Option sp.SpiffeId
  spiffe_id_from_api none = none
  spiffe_id_from_api (some i) = sp.td_from_string i.trust_domain >>= λ td. sp.id_from_path td i.path

  unfoldable pub entry_to_api : Entry sp → ApiEntry
  unfolding ttl_to_api spiffe_id_to_api
  entry_to_api e = record {
    id = e.id;
    spiffe_id = some (spiffe_id_to_api e.spiffe_id);
    parent_id = some (spiffe_id_to_api e.parent_id);
    selectors = e.selectors;
    x509_svid_ttl = ttl_to_api e.x509_svid_ttl;
    jwt_svid_ttl = ttl_to_api e.jwt_svid_ttl;
    federates_with = map sp.td_name e.federates_with;
    admin = e.admin;
    downstream = e.downstream;
    dns_names = e.dns_names;
    hint = e.hint;
    store_svid = e.store_svid;
  }

  unfoldable pub entry_from_api : Option ApiEntry → Option (Entry sp)
  unfolding ttl_from_api spiffe_id_from_api selector_from_api traverse
  entry_from_api none = none
  entry_from_api (some e) = do
    spiffe_id ← spiffe_id_from_api e.spiffe_id
    parent_id ← spiffe_id_from_api e.parent_id
    selectors ← traverse selector_from_api e.selectors
    federates_with ← traverse sp.td_from_string e.federates_with
    some (record {
      id = e.id;
      spiffe_id = spiffe_id;
      parent_id = parent_id;
      selectors = selectors;
      x509_svid_ttl = ttl_from_api e.x509_svid_ttl;
      jwt_svid_ttl = ttl_from_api e.jwt_svid_ttl;
      federates_with = federates_with;
      admin = e.admin;
      downstream = e.downstream;
      dns_names = e.dns_names;
      hint = e.hint;
      store_svid = e.store_svid;
    })

  unfoldable pub entries_to_api : List (Entry sp) → List (Option ApiEntry)
  unfolding entry_to_api
  entries_to_api es = map (λ e. some (entry_to_api e)) es

  unfoldable pub entries_from_api : List (Option ApiEntry) → Option (List (Entry sp))
  unfolding traverse entry_from_api
  entries_from_api = traverse entry_from_api

-- url.Parse: the scheme, the host, and whether there is userinfo
pub record Url : Type 0 where
  pub scheme : Str
  pub host : Str
  pub has_user : Bool

pub data ApiProfile : Type 0 where
  -- nil; and the two profiles, whose data may be missing
  no_profile : ApiProfile
  api_https_web : Bool → ApiProfile
  api_https_spiffe : Option Str → ApiProfile

pub record ApiFederationRelationship (ApiBundle : Type 0) : Type 0 where
  pub trust_domain : Str
  pub bundle_endpoint_url : Str
  pub trust_domain_bundle : Option ApiBundle
  pub bundle_endpoint_profile : ApiProfile

unfoldable pub validate_bundle_endpoint_url : (Str → Option Url) → Str → Option (Unit {0})
validate_bundle_endpoint_url parse_url s = do
  guard (not (is_empty s))
  u ← parse_url s
  guard (str_eq u.scheme (codes "https"))
  guard (not (is_empty u.host))
  guard (not u.has_user)

module _ (sp : Spiffe) where
  profile_to_api : BundleEndpointProfile sp → Option ApiProfile
  profile_to_api https_web = some (api_https_web true)
  profile_to_api (https_spiffe i) = some (api_https_spiffe (some (sp.id_string i)))
  profile_to_api https_web_pointer = none
  profile_to_api (https_spiffe_pointer i) = none

  profile_from_api : ApiProfile → Option (BundleEndpointProfile sp)
  profile_from_api no_profile = none
  profile_from_api (api_https_web false) = none
  profile_from_api (api_https_web true) = some https_web
  profile_from_api (api_https_spiffe none) = none
  profile_from_api (api_https_spiffe (some s)) = sp.id_from_string s >>= λ i. some (https_spiffe i)

-- `to_api` and `from_api` are bundleToAPI and bundleFromAPI.
module _ (sp : Spiffe) {B A : Type 0} (parse_url : Str → Option Url) where
  unfoldable pub federation_relationship_to_api :
      (B → Option A) → FederationRelationship sp B → Option (ApiFederationRelationship A)
  unfolding profile_to_api validate_bundle_endpoint_url
  federation_relationship_to_api to_api fr = do
    guard (not (sp.td_is_zero fr.trust_domain))
    validate_bundle_endpoint_url parse_url fr.bundle_endpoint_url
    bundle ← option_traverse to_api fr.trust_domain_bundle
    profile ← profile_to_api sp fr.bundle_endpoint_profile
    some (record {
      trust_domain = sp.td_name fr.trust_domain;
      bundle_endpoint_url = fr.bundle_endpoint_url;
      trust_domain_bundle = bundle;
      bundle_endpoint_profile = profile;
    })

  unfoldable pub federation_relationship_from_api :
      (A → Option B) → ApiFederationRelationship A → Option (FederationRelationship sp B)
  unfolding profile_from_api validate_bundle_endpoint_url
  federation_relationship_from_api from_api fr = do
    trust_domain ← sp.td_from_string fr.trust_domain
    validate_bundle_endpoint_url parse_url fr.bundle_endpoint_url
    bundle ← option_traverse from_api fr.trust_domain_bundle
    profile ← profile_from_api sp fr.bundle_endpoint_profile
    some (record {
      trust_domain = trust_domain;
      bundle_endpoint_url = fr.bundle_endpoint_url;
      bundle_endpoint_profile = profile;
      trust_domain_bundle = bundle;
    })
