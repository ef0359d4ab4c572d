-- ===== src/SpireApi/Convert/Relationships.antt =====
-- A federation relationship that goes to the server and comes back.
use spire_controller_manager.Prelude.{
  Str, Bool, true, false, Option, none, some, >>=-some, some-injective, option_traverse, guard, not,
  ◌≡◌, refl,
}
use spire_controller_manager.Spiffe.{Spiffe, SpiffeLaws}
use spire_controller_manager.SpireApi.Types.{
  FederationRelationship, BundleEndpointProfile, https_web, https_web_pointer, https_spiffe,
  https_spiffe_pointer,
}
use spire_controller_manager.SpireApi.Convert.{
  Url, ApiProfile, ApiFederationRelationship, profile_to_api, profile_from_api,
  validate_bundle_endpoint_url, federation_relationship_to_api, federation_relationship_from_api,
}

-- behind a check that a value is not zero
present : (zero : Bool) {u : Unit {0}} → guard (not zero) ≡ some u → zero ≡ false
present true e = cc e
present false e = refl

module _ {sp : Spiffe} (laws : SpiffeLaws sp) where
  -- the SPIFFE ID of the endpoint, if there is one, is read from its text
  unfoldable pub IsReadable : BundleEndpointProfile sp → Type 0
  IsReadable (https_spiffe i) = sp.id_from_string (sp.id_string i) ≡ some i
  IsReadable (https_spiffe_pointer i) = sp.id_from_string (sp.id_string i) ≡ some i
  IsReadable _ = Unit

  profile-back :
      (p : BundleEndpointProfile sp) {q : ApiProfile}
      → IsReadable p
      → profile_to_api sp p ≡ some q
      → profile_from_api sp q ≡ some p
  unfolding IsReadable profile_to_api profile_from_api
  profile-back https_web r h = rw (← some-injective h) refl
  profile-back (https_spiffe i) r h = rw (← some-injective h, r) refl
  profile-back https_web_pointer r h = cc
  profile-back (https_spiffe_pointer i) r h = cc

  module _ {B A : Type 0} (parse_url : Str → Option Url) (to_api : B → Option A)
      (from_api : A → Option B) where
    bundle-back :
        (b : Option B) {a : Option A}
        → ((x : B) (y : A) → b ≡ some x → to_api x ≡ some y → from_api y ≡ some x)
        → option_traverse to_api b ≡ some a
        → option_traverse from_api a ≡ some b
    bundle-back none back h = rw (← some-injective h) refl
    bundle-back (some b) back h =
        let (a, e, f) = >>=-some (to_api b) _ h in rw (← some-injective f, back b a refl e) refl

    -- A relationship that federationRelationshipToAPI converts comes back as it was, if its bundle
    -- comes back, where it has one, and the SPIFFE ID of its endpoint is read from its text.
    pub federation_relationship_from_api-to_api :
        (fr : FederationRelationship sp B) {a : ApiFederationRelationship A}
        → IsReadable fr.bundle_endpoint_profile
        → ((b : B) (c : A)
            → fr.trust_domain_bundle ≡ some b
            → to_api b ≡ some c
            → from_api c ≡ some b)
        → federation_relationship_to_api sp parse_url to_api fr ≡ some a
        → federation_relationship_from_api sp parse_url from_api a ≡ some fr
    unfolding federation_relationship_to_api federation_relationship_from_api
    federation_relationship_from_api-to_api fr r back h =
        let (z, nz, h1) = >>=-some (guard (not (sp.td_is_zero fr.trust_domain))) _ h in
        let (u, v, h2) =
          >>=-some (validate_bundle_endpoint_url parse_url fr.bundle_endpoint_url) _ h1 in
        let (b, eb, h3) = >>=-some (option_traverse to_api fr.trust_domain_bundle) _ h2 in
        let (p, ep, h4) = >>=-some (profile_to_api sp fr.bundle_endpoint_profile) _ h3 in
        rw
          (
            ← some-injective h4,
            laws.td_from_name fr.trust_domain (present (sp.td_is_zero fr.trust_domain) nz),
            v,
            bundle-back fr.trust_domain_bundle back eb,
            profile-back fr.bundle_endpoint_profile r ep,
          )
          refl
