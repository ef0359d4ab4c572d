-- ===== src/WebhookManager/Loop.antt =====
-- pkg/webhookmanager/manager.go: the loop of Start over what its select receives, and the channel of
-- one element by which the informer of startInformer tells it of changes.
pub mod Running
use spire_controller_manager.Prelude.{ℕ, ◌*◌, Str, Bool, true, false, List, [], ◌∷◌}
use spire_controller_manager.Prelude.Int.{ℤ, pos}
use spire_controller_manager.Spiffe.{Spiffe}
use spire_controller_manager.SpireApi.Convert.{second}
use spire_controller_manager.SpireApi.Svids.{Crypto}
use spire_controller_manager.WebhookManager.{Manager, Outside}
use spire_controller_manager.WebhookManager.Backoff.{
  Durations, BackoffTimer, rearm, reset, new_backoff_timer, fired,
}
use spire_controller_manager.WebhookManager.Minting.{mint_x509_svid_if_needed}
use spire_controller_manager.WebhookManager.Bundle.{refresh_bundle, update_webhook_config_if_needed}

-- `webhook_changed_ch` tells whether an element is in the channel.
pub record Started (W : Type 0) : Type 0 where
  pub manager : Manager
  pub world : W
  pub svid_timer : BackoffTimer
  pub bundle_timer : BackoffTimer
  pub webhook_timer : BackoffTimer
  pub webhook_changed_ch : Bool
  pub running : Bool

-- what select receives, and a notification of the informer
pub data Event : Type 0 where
  svid_timer_fired bundle_timer_fired webhook_timer_fired webhook_changed context_done notified :
      Event

module _ (duration : Durations) {sp : Spiffe} {crypto : Crypto sp} {Rest W : Type 0}
    (out : Outside crypto Rest W) where
  svid_handled : Started W → Bool × Manager × W → Started W
  unfolding rearm fired
  svid_handled s (done, m, w) = record s {
    manager = m;
    world = w;
    svid_timer = rearm duration done (fired s.svid_timer);
  }

  -- the bundle has been refreshed, and the webhook is updated, with or without an error
  bundle_refreshed : Started W → Bool × W → Started W
  unfolding reset
  bundle_refreshed s (done, w) = record s {
    world = w;
    webhook_timer = reset duration s.webhook_timer;
  }

  bundle_handled : Started W → Bool × Manager × W → Started W
  unfolding rearm fired bundle_refreshed update_webhook_config_if_needed
  bundle_handled s (false, m, w) = record s {
    manager = m;
    world = w;
    bundle_timer = rearm duration false (fired s.bundle_timer);
  }
  bundle_handled s (true, m, w) =
      bundle_refreshed
        (record s {
          manager = m;
          world = w;
          bundle_timer = rearm duration true (fired s.bundle_timer);
        })
        (update_webhook_config_if_needed out out.store m w)

  webhook_handled : Started W → Bool × W → Started W
  unfolding rearm fired
  webhook_handled s (done, w) = record s {
    world = w;
    webhook_timer = rearm duration done (fired s.webhook_timer);
  }

  change_handled : Started W → Bool × W → Started W
  unfolding reset
  change_handled s (done, w) = record s {
    world = w;
    webhook_changed_ch = false;
    webhook_timer = reset duration s.webhook_timer;
  }

  -- a change is received only if one is in the channel
  on_change : Bool → Started W → Started W
  unfolding change_handled update_webhook_config_if_needed
  on_change false s = s
  on_change true s =
      change_handled s (update_webhook_config_if_needed out out.store s.manager s.world)

  on_event : (List Str → List Str) → Event → Started W → Started W
  unfolding svid_handled bundle_handled webhook_handled on_change mint_x509_svid_if_needed
      refresh_bundle update_webhook_config_if_needed
  on_event walk svid_timer_fired s =
      svid_handled s (mint_x509_svid_if_needed out walk out.store s.manager s.world)
  on_event walk bundle_timer_fired s = bundle_handled s (refresh_bundle out s.manager s.world)
  on_event walk webhook_timer_fired s =
      webhook_handled s (update_webhook_config_if_needed out out.store s.manager s.world)
  on_event walk webhook_changed s = on_change s.webhook_changed_ch s
  on_event walk context_done s = record s { running = false }
  on_event walk notified s = record s { webhook_changed_ch = true }

  -- behind the end of the context only the informer's notifications are left, which nobody receives
  step_if : Bool → (List Str → List Str) → Event → Started W → Started W
  unfolding on_event
  step_if true walk e s = on_event walk e s
  step_if false walk e s = s

  unfoldable pub steps : (List Str → List Str) → List Event → Started W → Started W
  unfolding step_if
  steps walk [] s = s
  steps walk (e ∷ es) s = steps walk es (step_if s.running walk e s)

  -- Start, before its loop
  unfoldable pub start : Manager → W → Started W
  unfolding new_backoff_timer
  start m w = record {
    manager = m;
    world = w;
    svid_timer = new_backoff_timer duration (pos second) (pos (60 * second));
    bundle_timer = new_backoff_timer duration (pos (5 * second)) (pos (60 * second));
    webhook_timer = new_backoff_timer duration (pos (5 * second)) (pos (60 * second));
    webhook_changed_ch = false;
    running = true;
  }
