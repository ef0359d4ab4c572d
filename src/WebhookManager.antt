-- ===== src/WebhookManager.antt =====
-- pkg/webhookmanager/manager.go: the certificate of the webhook and the bundle of its configuration.
-- A time is a number of nanoseconds; the lock around the state is not modelled, since one goroutine
-- alone uses it. `outside` stands for crypto/ecdsa, the files, the clients and the clock.
pub mod Expiry
pub mod Names
pub mod Minting
pub mod Bundle
pub mod Backoff
pub mod Loop
use spire_controller_manager.Prelude.{Str, Bool, Option, List}
use spire_controller_manager.Prelude.Int.{ℤ}
use spire_controller_manager.Spiffe.{Spiffe}
use spire_controller_manager.SpireApi.Svids.{Crypto, X509Svid, X509SvidParams}

-- admissionregistrationv1.ServiceReference, ValidatingWebhook and ValidatingWebhookConfiguration, as
-- far as the manager reads and writes them; `rest` is what it leaves alone
pub record ServiceReference : Type 0 where
  pub namespace : Str
  pub name : Str

pub record Webhook (Rest : Type 0) : Type 0 where
  pub service : Option ServiceReference
  pub ca_bundle : Str
  pub rest : Rest

abbrev pub WebhookConfig : Type 0 → Type 0
WebhookConfig Rest = List (Webhook Rest)

-- getWebhookConfigFromStore: the cache fails or holds another type, has no object of the name, or
-- has the configuration
pub data Stored (Rest : Type 0) : Type 0 where
  unreadable missing : Stored Rest
  stored : WebhookConfig Rest → Stored Rest

-- the state of a Manager; `rotated_at` is none for the zero time
pub record Manager : Type 0 where
  pub rotated_at : Option ℤ
  pub expires_at : ℤ
  pub dns_names : List Str
  pub ca_bundle : Str

pub record Outside {sp : Spiffe} (crypto : Crypto sp) (Rest W : Type 0) : Type 0 where
  pub id : sp.SpiffeId
  pub key_pair_path : Str
  pub now : W → ℤ
  pub store : W → Stored Rest
  -- Get of the webhook's configuration
  pub get_config : W → Option (WebhookConfig Rest) × W
  pub generate_key : W → Option crypto.Key × W
  pub mint_x509_svid : X509SvidParams crypto → W → Option (X509Svid crypto) × W
  pub marshal_private_key : crypto.Key → Option Str
  pub pem_encode : Str → Str → Str
  pub write_file : Str → Str → W → Bool × W
  -- GetBundle, with the X.509 authorities of the bundle
  pub get_bundle : W → Option (List crypto.Certificate) × W
  -- StrategicMergeFrom(current).Data(modified), and Patch
  pub patch_data : WebhookConfig Rest → WebhookConfig Rest → Option Str
  pub patch : Str → W → Bool × W
