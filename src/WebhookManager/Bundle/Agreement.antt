-- ===== src/WebhookManager/Bundle/Agreement.antt =====
-- When the configuration of the webhook has the bundle of pkg/webhookmanager.
use spire_controller_manager.Prelude.{
  Str, str_eq_iff, any, map, true, false, [], ◌∷◌, ◌≡◌, ◌↔◌, ◌⊎◌, refl, ap, ◌∙◌, inl, inr,
  Bool-cases, arith, All,
}
use spire_controller_manager.Spiffe.{Spiffe}
use spire_controller_manager.SpireApi.Svids.{Crypto}
use spire_controller_manager.WebhookManager.{Manager, Outside, stored, Webhook, WebhookConfig}
use spire_controller_manager.WebhookManager.Bundle.{
  differs, with_bundle, update_stored, patch_with, update_webhook_config_if_needed,
}

abbrev pub HasBundle : {Rest : Type 0} → Str → Webhook Rest → Type 0
HasBundle ca h = h.ca_bundle ≡ ca

-- the configuration with the bundle in each webhook, and all else as it was
abbrev pub with_bundles : {Rest : Type 0} → Str → WebhookConfig Rest → WebhookConfig Rest
with_bundles ca [] = []
with_bundles ca (h ∷ c) = record h { ca_bundle = ca } ∷ with_bundles ca c

module _ {Rest : Type 0} (ca : Str) where
  differs_iff : (h : Webhook Rest) → (differs ca h ≡ false) ↔ HasBundle ca h
  unfolding differs
  differs_iff h = ground (arith, str_eq_iff h.ca_bundle ca)

  -- the webhooks that have another bundle are set, which leaves the others as they are
  map-with_bundle : (c : WebhookConfig Rest) → map (with_bundle ca) c ≡ with_bundles ca c
  unfolding with_bundle
  map-with_bundle [] = refl
  map-with_bundle (h ∷ c) = elim (Bool-cases (differs ca h)) [
    | inl y ↦ rw y (ap (◌∷◌ (record h { ca_bundle = ca })) (map-with_bundle c))
    | inr n ↦ rw n (
        ap (λ x. record h { ca_bundle = x } ∷ map (with_bundle ca) c) ((differs_iff h).0 n)
        ∙ ap (◌∷◌ (record h { ca_bundle = ca })) (map-with_bundle c))
  ]

  none_differs : (c : WebhookConfig Rest) → All (HasBundle ca) c → any (differs ca) c ≡ false
  unfolding any
  none_differs [] a = refl
  none_differs (h ∷ c) a = rw ((differs_iff h).1 a.0) (none_differs c a.1)

  differs-All : (c : WebhookConfig Rest) → any (differs ca) c ≡ false → All (HasBundle ca) c
  unfolding any
  differs-All [] e = tt
  differs-All (h ∷ c) e = elim (Bool-cases (differs ca h)) [
    | inl y ↦ ground (arith, e, y)
    | inr n ↦ ((differs_iff h).0 n, differs-All c (ground (arith, e, n)))
  ]

  with_bundles-All : (c : WebhookConfig Rest) → All (HasBundle ca) (with_bundles ca c)
  with_bundles-All [] = tt
  with_bundles-All (h ∷ c) = (refl, with_bundles-All c)

module _ {sp : Spiffe} {crypto : Crypto sp} {Rest W : Type 0} (out : Outside crypto Rest W) where
  update_stored-cases :
      (ca : Str) (c : WebhookConfig Rest) (w : W)
      → (All (HasBundle ca) c × (update_stored out ca (stored c) w ≡ (true, w)))
        ⊎ ((¬ All (HasBundle ca) c)
            × (update_stored out ca (stored c) w
                ≡ patch_with out (out.patch_data c (with_bundles ca c)) w))
  unfolding update_stored
  update_stored-cases ca c w = elim (Bool-cases (any (differs ca) c)) [
    | inl y ↦ rw (y, map-with_bundle ca c) (inr ((λ a. cc (y, none_differs ca c a)), refl))
    | inr n ↦ rw n (inl (differs-All ca c n, refl))
  ]

  update_stored-again :
      (ca : Str) (c : WebhookConfig Rest) (w : W)
      → update_stored out ca (stored (with_bundles ca c)) w ≡ (true, w)
  unfolding update_stored
  update_stored-again ca c w = rw (none_differs ca (with_bundles ca c) (with_bundles-All ca c)) refl

  -- Where the cache has a configuration, an update calls nothing if every webhook has the manager's
  -- bundle; and if one has not, it sends one patch, from that configuration to the one that has the
  -- bundle in each webhook and is otherwise as it was. Whenever the cache has come to show that one,
  -- an update with the same bundle calls nothing.
  pub update_webhook_config_if_needed-settles :
      (m : Manager) (c : WebhookConfig Rest) (w later : W)
      → out.store w ≡ stored c
      → out.store later ≡ stored (with_bundles m.ca_bundle c)
      → ((All (HasBundle m.ca_bundle) c
            × (update_webhook_config_if_needed out out.store m w ≡ (true, w)))
          ⊎ ((¬ All (HasBundle m.ca_bundle) c)
              × (update_webhook_config_if_needed out out.store m w
                  ≡ patch_with out (out.patch_data c (with_bundles m.ca_bundle c)) w)))
        × (update_webhook_config_if_needed out out.store m later ≡ (true, later))
  unfolding update_webhook_config_if_needed
  update_webhook_config_if_needed-settles m c w later e f =
      (rw e (update_stored-cases m.ca_bundle c w), rw f (update_stored-again m.ca_bundle c later))
