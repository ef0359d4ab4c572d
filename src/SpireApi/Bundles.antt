-- ===== src/SpireApi/Bundles.antt =====
-- pkg/spireapi/types.go and bundleapi.go: bundles and their messages. A Bundle here is what the
-- accessors of a spiffebundle.Bundle give; parsing and marshalling of keys are parameters.
use spire_controller_manager.Prelude.{
  ℕ, Str, Option, none, some, List, [], ◌∷◌, is_empty, not, guard, ◌>>=◌, ◌>>◌, traverse,
  if◌then◌else◌, ◌==◌,
}
use spire_controller_manager.Prelude.Assoc.{Assoc, insert}
use spire_controller_manager.Prelude.Int.{ℤ, pos, eqb_ℤ, quot, scale, to_int64}
use spire_controller_manager.Spiffe.{Spiffe}
use spire_controller_manager.SpireApi.Convert.{second}

-- crypto/x509: certificates and public keys
pub record Authorities : Type 1 where
  pub Certificate : Type 0
  pub PublicKey : Type 0
  pub raw : Certificate → Str
  pub parse_certificate : Str → Option Certificate
  pub marshal_public_key : PublicKey → Option Str
  pub parse_public_key : Str → Option PublicKey

pub record ApiJwtKey : Type 0 where
  pub key_id : Str
  pub public_key : Str

pub record ApiBundle : Type 0 where
  pub trust_domain : Str
  pub x509_authorities : List Str
  pub jwt_authorities : List ApiJwtKey
  pub sequence_number : ℕ
  pub refresh_hint : ℤ

pub record Bundle (sp : Spiffe) (au : Authorities) : Type 0 where
  pub trust_domain : sp.TrustDomain
  pub x509_authorities : List au.Certificate
  pub jwt_authorities : Assoc au.PublicKey
  pub sequence_number : Option ℕ
  pub refresh_hint : Option ℤ

-- the number that an accessor gives beside false
unfoldable pub number_or_zero : Option ℕ → ℕ
number_or_zero none = 0
number_or_zero (some n) = n

unfoldable pub hint_to_api : Option ℤ → ℤ
hint_to_api none = quot (pos 0) second
hint_to_api (some d) = to_int64 (quot d second)

-- if in.SequenceNumber != 0
unfoldable pub number_from_api : ℕ → Option ℕ
number_from_api n = if n == 0 then none else some n

-- if in.RefreshHint != 0
unfoldable pub hint_from_api : ℤ → Option ℤ
hint_from_api n = if eqb_ℤ n (pos 0) then none else some (to_int64 (scale n second))

module _ (au : Authorities) where
  unfoldable pub x509_authority_to_api : au.Certificate → Option Str
  x509_authority_to_api c = guard (not (is_empty (au.raw c))) >> some (au.raw c)

  unfoldable pub x509_authorities_to_api : List au.Certificate → Option (List Str)
  unfolding traverse x509_authority_to_api
  x509_authorities_to_api = traverse x509_authority_to_api

  unfoldable pub x509_authorities_from_api : List Str → Option (List au.Certificate)
  unfolding traverse
  x509_authorities_from_api = traverse au.parse_certificate

  unfoldable pub jwt_authority_to_api : Str × au.PublicKey → Option ApiJwtKey
  jwt_authority_to_api (id, key) =
      guard (not (is_empty id))
      >> (au.marshal_public_key key >>= λ bytes. some record { key_id = id; public_key = bytes })

  -- `walk` is the order in which Go walks the map
  unfoldable pub jwt_authorities_to_api :
      (Assoc au.PublicKey → Assoc au.PublicKey) → Assoc au.PublicKey → Option (List ApiJwtKey)
  unfolding traverse jwt_authority_to_api
  jwt_authorities_to_api walk keys = traverse jwt_authority_to_api (walk keys)

  unfoldable pub jwt_authority_from_api : ApiJwtKey → Option (Str × au.PublicKey)
  jwt_authority_from_api k =
      guard (not (is_empty k.key_id))
      >> (au.parse_public_key k.public_key >>= λ key. some (k.key_id, key))

  -- outs[keyID] = publicKey, in the order of the message
  unfoldable pub jwt_authorities_onto :
      List ApiJwtKey → Assoc au.PublicKey → Option (Assoc au.PublicKey)
  unfolding jwt_authority_from_api insert
  jwt_authorities_onto [] outs = some outs
  jwt_authorities_onto (k ∷ ks) outs =
      jwt_authority_from_api k >>= λ p. jwt_authorities_onto ks (insert (p.0) (p.1) outs)

  unfoldable pub jwt_authorities_from_api : List ApiJwtKey → Option (Assoc au.PublicKey)
  unfolding jwt_authorities_onto
  jwt_authorities_from_api ks = jwt_authorities_onto ks []

  module _ (sp : Spiffe) where
    unfoldable pub bundle_to_api :
        (Assoc au.PublicKey → Assoc au.PublicKey) → Bundle sp au → Option ApiBundle
    unfolding x509_authorities_to_api jwt_authorities_to_api number_or_zero hint_to_api
    bundle_to_api walk b = do
      guard (not (is_empty (sp.td_name b.trust_domain)))
      x509 ← x509_authorities_to_api b.x509_authorities
      jwt ← jwt_authorities_to_api walk b.jwt_authorities
      some (record {
        trust_domain = sp.td_name b.trust_domain;
        x509_authorities = x509;
        jwt_authorities = jwt;
        sequence_number = number_or_zero b.sequence_number;
        refresh_hint = hint_to_api b.refresh_hint;
      })

    -- a message that is nil is a bundle that is nil
    unfoldable pub bundle_from_api : Option ApiBundle → Option (Option (Bundle sp au))
    unfolding x509_authorities_from_api jwt_authorities_from_api number_from_api hint_from_api
    bundle_from_api none = some none
    bundle_from_api (some b) = do
      td ← sp.td_from_string b.trust_domain
      x509 ← x509_authorities_from_api b.x509_authorities
      jwt ← jwt_authorities_from_api b.jwt_authorities
      some (
          some (record {
            trust_domain = td;
            x509_authorities = x509;
            jwt_authorities = jwt;
            sequence_number = number_from_api b.sequence_number;
            refresh_hint = hint_from_api b.refresh_hint;
          }))

    module _ {W : Type 0} where
      bundle_of : Option (Option ApiBundle) × W → Option (Option (Bundle sp au)) × W
      unfolding bundle_from_api
      bundle_of (none, w) = (none, w)
      bundle_of (some b, w) = (bundle_from_api b, w)

      -- bundleClient.GetBundle, over the call of the server
      unfoldable pub get_bundle :
          (W → Option (Option ApiBundle) × W) → W → Option (Option (Bundle sp au)) × W
      unfolding bundle_of
      get_bundle call w = bundle_of (call w)
