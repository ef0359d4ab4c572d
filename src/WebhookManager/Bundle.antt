-- ===== src/WebhookManager/Bundle.antt =====
-- pkg/webhookmanager/manager.go: refreshBundle, updateWebhookConfigIfNeeded and Init.
pub mod Agreement
use spire_controller_manager.Prelude.{
  Str, str_eq, not, any, map, Bool, true, false, Option, none, some, List, [], ◌∷◌, if◌then◌else◌,
}
use spire_controller_manager.Spiffe.{Spiffe}
use spire_controller_manager.SpireApi.Svids.{Crypto}
use spire_controller_manager.WebhookManager.{
  Manager, Outside, Stored, unreadable, missing, stored, Webhook, WebhookConfig,
}
use spire_controller_manager.WebhookManager.Minting.{
  marshal_x509_authorities, mint_x509_svid_if_needed,
}

module _ {Rest : Type 0} where
  unfoldable pub differs : Str → Webhook Rest → Bool
  differs ca h = not (str_eq h.ca_bundle ca)

  unfoldable pub with_bundle : Str → Webhook Rest → Webhook Rest
  unfolding differs
  with_bundle ca h = if differs ca h then record h { ca_bundle = ca } else h

module _ {sp : Spiffe} {crypto : Crypto sp} {Rest W : Type 0} (out : Outside crypto Rest W) where
  set_bundle : Manager → Option (List crypto.Certificate) × W → Bool × Manager × W
  unfolding marshal_x509_authorities
  set_bundle m (none, w) = (false, m, w)
  set_bundle m (some authorities, w) =
      (true, record m { ca_bundle = marshal_x509_authorities out authorities }, w)

  unfoldable pub refresh_bundle : Manager → W → Bool × Manager × W
  unfolding set_bundle
  refresh_bundle m w = set_bundle m (out.get_bundle w)

  pub patch_with : Option Str → W → Bool × W
  patch_with none w = (false, w)
  patch_with (some patch) w = out.patch patch w

  -- a copy is made, and patched, where a webhook has another bundle
  update_stored : Str → Stored Rest → W → Bool × W
  unfolding patch_with with_bundle differs any
  update_stored ca unreadable w = (false, w)
  update_stored ca missing w = (true, w)
  update_stored ca (stored current) w =
      if any (differs ca) current
      then patch_with (out.patch_data current (map (with_bundle ca) current)) w
      else (true, w)

  unfoldable pub update_webhook_config_if_needed : (W → Stored Rest) → Manager → W → Bool × W
  unfolding update_stored
  update_webhook_config_if_needed store m w = update_stored m.ca_bundle (store w) w

  -- the last step of Init, with the configuration that Get returned as the store
  init_update : (W → Stored Rest) → Bool × Manager × W → Bool × Manager × W
  unfolding update_webhook_config_if_needed
  init_update store (false, m, w) = (false, m, w)
  init_update store (true, m, w) =
      let (done, w) = update_webhook_config_if_needed store m w in (done, m, w)

  init_with : (List Str → List Str) → Manager → Option (WebhookConfig Rest) × W → Bool × Manager × W
  unfolding init_update mint_x509_svid_if_needed
  init_with walk m (none, w) = (false, m, w)
  init_with walk m (some c, w) =
      init_update (λ _. stored c) (mint_x509_svid_if_needed out walk (λ _. stored c) m w)

  init_refreshed : (List Str → List Str) → Bool × Manager × W → Bool × Manager × W
  unfolding init_with
  init_refreshed walk (false, m, w) = (false, m, w)
  init_refreshed walk (true, m, w) = init_with walk m (out.get_config w)

  unfoldable pub init : (List Str → List Str) → Manager → W → Bool × Manager × W
  unfolding init_refreshed refresh_bundle
  init walk m w = init_refreshed walk (refresh_bundle m w)
