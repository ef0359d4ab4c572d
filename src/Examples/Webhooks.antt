-- ===== src/Examples/Webhooks.antt =====
-- The webhook manager.
use spire_controller_manager.Prelude.{
  All, ◌⊎◌, ℕ, ◌*◌, Str, codes, true, false, Option, none, some, List, [], ◌∷◌, ◌≡◌, ◌≢◌, ◌↔◌, refl,
  ◌+◌, str_eq, arith,
}
use spire_controller_manager.Prelude.Int.{pos, ◌-ℤ◌, ◌≤ℤ◌}
use spire_controller_manager.SpireApi.Svids.{Crypto}
use spire_controller_manager.WebhookManager.{
  ServiceReference, Manager, Outside, stored, WebhookConfig,
}
use spire_controller_manager.WebhookManager.Expiry.{
  hour, day, soon, lifetime_of, mint_reason, expired,
}
use spire_controller_manager.WebhookManager.Expiry.Validity.{mint_reason_iff}
use spire_controller_manager.WebhookManager.Bundle.{patch_with, update_webhook_config_if_needed}
use spire_controller_manager.WebhookManager.Bundle.Agreement.{
  HasBundle, with_bundles, update_webhook_config_if_needed-settles,
}
use spire_controller_manager.WebhookManager.Loop.{
  svid_timer_fired, bundle_timer_fired, webhook_timer_fired, webhook_changed, notified, steps,
  start,
}
use spire_controller_manager.WebhookManager.Loop.Running.{IsRunning, steps-IsRunning}
use spire_controller_manager.Examples.Fixtures.{plain}

abbrev names : List Str
names = codes "spire.svc" ∷ []

-- a certificate of a day, nine hours after its rotation
mint_reason_iff_example :
    let (lifetime, expires_in) =
      lifetime_of (some (pos 100)) (pos (100 + day)) (pos (100 + 9 * hour)) in
    ((mint_reason lifetime expires_in names names ≡ none) ↔ (
      (pos (100 + day) ≢ pos 100)
      × (soon (pos (100 + day) -ℤ pos 100) ≤ℤ (pos (100 + day) -ℤ pos (100 + 9 * hour)))
      × (pos (100 + 9 * hour) ≤ℤ pos (100 + day))
      × (names ≡ names)))
    × (mint_reason lifetime expires_in names names ≢ some expired)
mint_reason_iff_example =
    mint_reason_iff (pos 100) (pos (100 + day)) (pos (100 + 9 * hour)) names names (ground arith)
      (ground arith) (ground arith) (ground arith)

abbrev crypto : Crypto plain
crypto = record {
  Key = ℕ;
  Certificate = Str;
  id_is_zero = λ id. false;
  raw = λ c. c;
  not_after = λ c. pos 0;
  parse_certificate = λ s. some s;
}

-- The world is the configuration that the server has: of one webhook, whose patch is its new bundle.
abbrev bare : Str → WebhookConfig (Unit {0})
bare ca = record { service = none; ca_bundle = ca; rest = tt } ∷ []

new_bundle : Option ServiceReference → Str → Option Str
new_bundle none ca = some ca
new_bundle (some s) ca = none

patch_of : WebhookConfig (Unit {0}) → Option Str
unfolding new_bundle
patch_of [] = none
patch_of (h ∷ []) = new_bundle h.service h.ca_bundle
patch_of (h ∷ g ∷ hs) = none

abbrev outside : Outside crypto (Unit {0}) (WebhookConfig (Unit {0}))
outside = record {
  id = (codes "a.org", codes "/webhook");
  key_pair_path = codes "keypair.pem";
  now = λ w. pos 5;
  store = λ w. stored w;
  get_config = λ w. (some w, w);
  generate_key = λ w. (some 0, w);
  mint_x509_svid = λ p w. (none, w);
  marshal_private_key = λ k. none;
  pem_encode = λ t b. b;
  write_file = λ p b w. (false, w);
  get_bundle = λ w. (some (codes "new" ∷ []), w);
  patch_data = λ c m. patch_of m;
  patch = λ d w. (true, bare d);
}

abbrev manager : Manager
manager = record { rotated_at = none; expires_at = pos 0; dns_names = []; ca_bundle = codes "new" }

patched :
    update_webhook_config_if_needed outside outside.store manager (bare (codes "old"))
    ≡ (true, bare (codes "new"))
unfolding update_webhook_config_if_needed patch_of str_eq
patched = refl

-- two webhooks, one of which has the bundle
abbrev half_done : WebhookConfig (Unit {0})
half_done =
    record { service = none; ca_bundle = codes "new"; rest = tt }
    ∷ record { service = none; ca_bundle = codes "old"; rest = tt }
    ∷ []

update_webhook_config_if_needed-settles_example :
    ((All (HasBundle (codes "new")) half_done
        × (update_webhook_config_if_needed outside outside.store manager half_done
            ≡ (true, half_done)))
      ⊎ ((¬ All (HasBundle (codes "new")) half_done)
          × (update_webhook_config_if_needed outside outside.store manager half_done
              ≡ patch_with outside
                  (outside.patch_data half_done (with_bundles (codes "new") half_done))
                  half_done)))
    × (update_webhook_config_if_needed outside outside.store manager
          (with_bundles (codes "new") half_done)
        ≡ (true, with_bundles (codes "new") half_done))
update_webhook_config_if_needed-settles_example =
    update_webhook_config_if_needed-settles outside manager half_done half_done
      (with_bundles (codes "new") half_done) refl refl

steps-IsRunning_example : IsRunning (
    steps
      (λ least most n. least)
      outside
      (λ l. l)
      (svid_timer_fired ∷ bundle_timer_fired ∷ notified ∷ webhook_changed ∷ webhook_timer_fired
        ∷ [])
      (start (λ least most n. least) outside manager (bare (codes "old"))))
steps-IsRunning_example =
    steps-IsRunning (λ least most n. least) outside (λ l. l)
      (svid_timer_fired ∷ bundle_timer_fired ∷ notified ∷ webhook_changed ∷ webhook_timer_fired
        ∷ [])
      manager (bare (codes "old"))
