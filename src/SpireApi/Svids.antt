-- ===== src/SpireApi/Svids.antt =====
-- pkg/spireapi/svidapi.go: MintX509SVID. The certificates, the request and the call of the server are
-- parameters; a pointer of the response that is not checked panics where it is nil.
use spire_controller_manager.Prelude.{
  ◌*◌, Str, Bool, Option, none, some, List, [], ◌∷◌, if◌then◌else◌,
}
use spire_controller_manager.Prelude.Int.{ℤ, pos, ltb_ℤ, eqb_ℤ, quot, to_int32}
use spire_controller_manager.Prelude.Results.{
  Result, ok, err, ◌>>=◌, ◌>>◌, fail_if, or_fail, try_all,
}
use spire_controller_manager.Spiffe.{Spiffe}
use spire_controller_manager.SpireApi.Convert.{ApiSpiffeId, second}

-- crypto/x509, and the zero test of a SPIFFE ID; a certificate holds its bytes and its end
pub record Crypto (sp : Spiffe) : Type 1 where
  pub Key : Type 0
  pub Certificate : Type 0
  pub id_is_zero : sp.SpiffeId → Bool
  pub raw : Certificate → Str
  pub not_after : Certificate → ℤ
  pub parse_certificate : Str → Option Certificate

module _ {sp : Spiffe} (crypto : Crypto sp) where
  pub record X509Svid : Type 0 where
    pub id : sp.SpiffeId
    pub key : crypto.Key
    pub cert_chain : List crypto.Certificate
    pub expires_at : ℤ

  -- X509SVIDParams, without the subject
  pub record X509SvidParams : Type 0 where
    pub key : Option crypto.Key
    pub id : sp.SpiffeId
    pub dns_names : List Str
    pub ttl : ℤ

-- apitypes.X509SVID
pub record ApiX509Svid : Type 0 where
  pub id : Option ApiSpiffeId
  pub cert_chain : List Str

pub data SvidError : Type 0 where
  key_required id_required negative_ttl no_csr mint_failed no_svid nil_id invalid_trust_domain
        invalid_id invalid_certificate no_certificates :
      SvidError

-- time.Hour
abbrev pub default_x509_svid_ttl : ℤ
default_x509_svid_ttl = pos (3600 * second)

-- x509.CreateCertificateRequest and the call MintX509SVID of the server
pub record SvidApi {sp : Spiffe} (crypto : Crypto sp) (W : Type 0) : Type 1 where
  pub Csr : Type 0
  pub create_request : crypto.Key → sp.SpiffeId → List Str → W → Option Csr × W
  pub mint : Csr → ℤ → W → Option (Option ApiX509Svid) × W

module _ {sp : Spiffe} {crypto : Crypto sp} where
  -- the switch at the beginning of MintX509SVID: the key and the TTL to ask for
  unfoldable pub checked_params : X509SvidParams crypto → Result SvidError (crypto.Key × ℤ)
  checked_params p = or_fail p.key key_required >>= λ key.
      fail_if (crypto.id_is_zero p.id) id_required
      >> (fail_if (ltb_ℤ p.ttl (pos 0)) negative_ttl
          >> ok (key, if eqb_ℤ p.ttl (pos 0) then default_x509_svid_ttl else p.ttl))

  -- the chain must have a first certificate, whose end is that of the SVID
  with_chain :
      sp.SpiffeId → crypto.Key → List crypto.Certificate → Result SvidError (X509Svid crypto)
  with_chain id key [] = err no_certificates
  with_chain id key (c ∷ chain) =
      ok record { id = id; key = key; cert_chain = c ∷ chain; expires_at = crypto.not_after c }

  svid_from_api : crypto.Key → Option ApiX509Svid → Result SvidError (X509Svid crypto)
  unfolding with_chain
  svid_from_api key none = err no_svid
  svid_from_api key (some s) = or_fail s.id nil_id >>= λ id.
      or_fail (sp.td_from_string id.trust_domain) invalid_trust_domain >>= λ td.
      or_fail (sp.id_from_path td id.path) invalid_id >>= λ id.
      try_all (λ der. or_fail (crypto.parse_certificate der) invalid_certificate) s.cert_chain
      >>= λ chain. with_chain id key chain

  module _ {W : Type 0} (api : SvidApi crypto W) where
    from_response :
        crypto.Key → Option (Option ApiX509Svid) × W → Result SvidError (X509Svid crypto) × W
    unfolding svid_from_api
    from_response key (none, w) = (err mint_failed, w)
    from_response key (some s, w) = (svid_from_api key s, w)

    mint_request : crypto.Key → ℤ → Option api.Csr × W → Result SvidError (X509Svid crypto) × W
    unfolding from_response
    mint_request key ttl (none, w) = (err no_csr, w)
    mint_request key ttl (some csr, w) =
        from_response key (api.mint csr (to_int32 (quot ttl second)) w)

    mint_checked :
        X509SvidParams crypto
        → Result SvidError (crypto.Key × ℤ)
        → W
        → Result SvidError (X509Svid crypto) × W
    unfolding mint_request
    mint_checked p (err e) w = (err e, w)
    mint_checked p (ok (key, ttl)) w =
        mint_request key ttl (api.create_request key p.id p.dns_names w)

    unfoldable pub mint_x509_svid :
        X509SvidParams crypto → W → Result SvidError (X509Svid crypto) × W
    unfolding mint_checked checked_params
    mint_x509_svid p w = mint_checked p (checked_params p) w
