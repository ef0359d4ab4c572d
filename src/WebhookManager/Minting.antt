-- ===== src/WebhookManager/Minting.antt =====
-- pkg/webhookmanager/manager.go: mintX509SVIDIfNeeded, mintX509SVID, and what they write.
use spire_controller_manager.Prelude.{
  Str, codes, ◌++◌, Bool, true, false, Option, none, some, List, [], ◌∷◌,
}
use spire_controller_manager.Prelude.Int.{ℤ, pos}
use spire_controller_manager.Spiffe.{Spiffe}
use spire_controller_manager.SpireApi.Svids.{Crypto, X509Svid}
use spire_controller_manager.WebhookManager.{Manager, Outside, Stored, unreadable, missing, stored}
use spire_controller_manager.WebhookManager.Names.{webhook_dns_names}
use spire_controller_manager.WebhookManager.Expiry.{Reason, day, lifetime_of, mint_reason}

-- a day
abbrev pub x509_svid_ttl : ℤ
x509_svid_ttl = pos day

module _ {sp : Spiffe} {crypto : Crypto sp} {Rest W : Type 0} (out : Outside crypto Rest W) where
  unfoldable pub encode_certificates : List crypto.Certificate → Str
  encode_certificates [] = []
  encode_certificates (c ∷ cs) =
      out.pem_encode (codes "CERTIFICATE") (crypto.raw c) ++ encode_certificates cs

  unfoldable pub marshal_x509_authorities : List crypto.Certificate → Str
  unfolding encode_certificates
  marshal_x509_authorities = encode_certificates

  with_key : Str → Option Str → Option Str
  with_key chain none = none
  with_key chain (some key) = some (chain ++ out.pem_encode (codes "PRIVATE KEY") key)

  unfoldable pub marshal_svid : X509Svid crypto → Option Str
  unfolding with_key encode_certificates
  marshal_svid svid =
      with_key (encode_certificates svid.cert_chain) (out.marshal_private_key svid.key)

  -- the certificate is written, and the state remembers it
  recorded : List Str → X509Svid crypto → Manager → Bool × W → Bool × Manager × W
  recorded names svid m (false, w) = (false, m, w)
  recorded names svid m (true, w) = (
    true,
    record m { rotated_at = some (out.now w); expires_at = svid.expires_at; dns_names = names },
    w,
  )

  write_svid : List Str → X509Svid crypto → Option Str → Manager → W → Bool × Manager × W
  unfolding recorded
  write_svid names svid none m w = (false, m, w)
  write_svid names svid (some content) m w =
      recorded names svid m (out.write_file out.key_pair_path content w)

  keep_svid : List Str → Manager → Option (X509Svid crypto) × W → Bool × Manager × W
  unfolding write_svid marshal_svid
  keep_svid names m (none, w) = (false, m, w)
  keep_svid names m (some svid, w) = write_svid names svid (marshal_svid svid) m w

  mint_with_key : List Str → Manager → Option crypto.Key × W → Bool × Manager × W
  unfolding keep_svid
  mint_with_key names m (none, w) = (false, m, w)
  mint_with_key names m (some key, w) = keep_svid names m (
      out.mint_x509_svid
        record { key = some key; id = out.id; dns_names = names; ttl = x509_svid_ttl } w)

  unfoldable pub mint_x509_svid : List Str → Manager → W → Bool × Manager × W
  unfolding mint_with_key
  mint_x509_svid names m w = mint_with_key names m (out.generate_key w)

  mint_for : Option Reason → List Str → Manager → W → Bool × Manager × W
  unfolding mint_x509_svid
  mint_for none names m w = (true, m, w)
  mint_for (some reason) names m w = mint_x509_svid names m w

  -- a result of false is an error
  mint_stored : (List Str → List Str) → Stored Rest → Manager → W → Bool × Manager × W
  unfolding mint_for lifetime_of mint_reason webhook_dns_names
  mint_stored walk unreadable m w = (false, m, w)
  mint_stored walk missing m w = (true, m, w)
  mint_stored walk (stored c) m w =
      let names = webhook_dns_names walk c in
      let (lifetime, expires_in) = lifetime_of m.rotated_at m.expires_at (out.now w) in
      mint_for (mint_reason lifetime expires_in names m.dns_names) names m w

  unfoldable pub mint_x509_svid_if_needed :
      (List Str → List Str) → (W → Stored Rest) → Manager → W → Bool × Manager × W
  unfolding mint_stored
  mint_x509_svid_if_needed walk store m w = mint_stored walk (store w) m w
