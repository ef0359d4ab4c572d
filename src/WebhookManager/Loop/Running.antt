-- ===== src/WebhookManager/Loop/Running.antt =====
-- The timers of Start in pkg/webhookmanager/manager.go.
use spire_controller_manager.Prelude.{
  Str, Bool, true, false, Option, none, some, List, [], ◌∷◌, ◌≡◌, refl,
}
use spire_controller_manager.Prelude.Int.{ℤ}
use spire_controller_manager.Spiffe.{Spiffe}
use spire_controller_manager.SpireApi.Svids.{Crypto}
use spire_controller_manager.WebhookManager.{Manager, Outside}
use spire_controller_manager.WebhookManager.Backoff.{
  Durations, BackoffTimer, back_off, rearm, reset, new_backoff_timer, fired,
}
use spire_controller_manager.WebhookManager.Minting.{mint_x509_svid_if_needed}
use spire_controller_manager.WebhookManager.Bundle.{refresh_bundle, update_webhook_config_if_needed}
use spire_controller_manager.WebhookManager.Loop.{
  Started, Event, svid_timer_fired, bundle_timer_fired, webhook_timer_fired, webhook_changed,
  context_done, notified, svid_handled, bundle_refreshed, bundle_handled, webhook_handled,
  change_handled, on_change, on_event, step_if, steps, start,
}

abbrev pub is_armed : Option ℤ → Bool
is_armed none = false
is_armed (some d) = true

-- each of the three timers runs
pub record IsRunning {W : Type 0} (s : Started W) : Type 0 where
  pub svid : is_armed s.svid_timer.armed ≡ true
  pub bundle : is_armed s.bundle_timer.armed ≡ true
  pub webhook : is_armed s.webhook_timer.armed ≡ true

module _ (duration : Durations) where
  rearm_armed : (b : Bool) (t : BackoffTimer) → is_armed (rearm duration b t).armed ≡ true
  unfolding rearm back_off reset
  rearm_armed true t = refl
  rearm_armed false t = refl

  reset_armed : (t : BackoffTimer) → is_armed (reset duration t).armed ≡ true
  unfolding reset back_off
  reset_armed t = refl

  module _ {sp : Spiffe} {crypto : Crypto sp} {Rest W : Type 0} (out : Outside crypto Rest W) where
    svid_handled-IsRunning :
        (s : Started W) (r : Bool × Manager × W)
        → IsRunning s
        → IsRunning (svid_handled duration out s r)
    unfolding svid_handled
    svid_handled-IsRunning s (done, m, w) h = record {
      svid = rearm_armed done (fired s.svid_timer);
      bundle = h.bundle;
      webhook = h.webhook;
    }

    bundle_handled-IsRunning :
        (s : Started W) (r : Bool × Manager × W)
        → IsRunning s
        → IsRunning (bundle_handled duration out s r)
    unfolding bundle_handled
    bundle_handled-IsRunning s (false, m, w) h = record {
      svid = h.svid;
      bundle = rearm_armed false (fired s.bundle_timer);
      webhook = h.webhook;
    }
    bundle_handled-IsRunning s (true, m, w) h =
        refreshed
          (record s {
            manager = m;
            world = w;
            bundle_timer = rearm duration true (fired s.bundle_timer);
          })
          (update_webhook_config_if_needed out out.store m w) h.svid
          (rearm_armed true (fired s.bundle_timer))
      where
        refreshed :
            (s : Started W) (r : Bool × W)
            → is_armed s.svid_timer.armed ≡ true
            → is_armed s.bundle_timer.armed ≡ true
            → IsRunning (bundle_refreshed duration out s r)
        refreshed s (done, w) a b = record {
          svid = a;
          bundle = b;
          webhook = reset_armed s.webhook_timer;
        }

    webhook_handled-IsRunning :
        (s : Started W) (r : Bool × W) → IsRunning s → IsRunning (webhook_handled duration out s r)
    unfolding webhook_handled
    webhook_handled-IsRunning s (done, w) h = record {
      svid = h.svid;
      bundle = h.bundle;
      webhook = rearm_armed done (fired s.webhook_timer);
    }

    change_handled-IsRunning :
        (s : Started W) (r : Bool × W) → IsRunning s → IsRunning (change_handled duration out s r)
    unfolding change_handled
    change_handled-IsRunning s (done, w) h = record {
      svid = h.svid;
      bundle = h.bundle;
      webhook = reset_armed s.webhook_timer;
    }

    on_change-IsRunning :
        (b : Bool) (s : Started W) → IsRunning s → IsRunning (on_change duration out b s)
    unfolding on_change
    on_change-IsRunning false s h = h
    on_change-IsRunning true s h =
        change_handled-IsRunning s (update_webhook_config_if_needed out out.store s.manager s.world)
          h

    on_event-IsRunning :
        (walk : List Str → List Str) (e : Event) (s : Started W)
        → IsRunning s
        → IsRunning (on_event duration out walk e s)
    unfolding on_event
    on_event-IsRunning walk svid_timer_fired s h =
        svid_handled-IsRunning s (mint_x509_svid_if_needed out walk out.store s.manager s.world) h
    on_event-IsRunning walk bundle_timer_fired s h =
        bundle_handled-IsRunning s (refresh_bundle out s.manager s.world) h
    on_event-IsRunning walk webhook_timer_fired s h =
        webhook_handled-IsRunning s
          (update_webhook_config_if_needed out out.store s.manager s.world) h
    on_event-IsRunning walk webhook_changed s h = on_change-IsRunning s.webhook_changed_ch s h
    on_event-IsRunning walk context_done s h = record {
      svid = h.svid;
      bundle = h.bundle;
      webhook = h.webhook;
    }
    on_event-IsRunning walk notified s h = record {
      svid = h.svid;
      bundle = h.bundle;
      webhook = h.webhook;
    }

    step_if-IsRunning :
        (b : Bool) (walk : List Str → List Str) (e : Event) (s : Started W)
        → IsRunning s
        → IsRunning (step_if duration out b walk e s)
    unfolding step_if
    step_if-IsRunning true walk e s h = on_event-IsRunning walk e s h
    step_if-IsRunning false walk e s h = h

    steps_from-IsRunning :
        (walk : List Str → List Str) (es : List Event) (s : Started W)
        → IsRunning s
        → IsRunning (steps duration out walk es s)
    unfolding steps
    steps_from-IsRunning walk [] s h = h
    steps_from-IsRunning walk (e ∷ es) s h =
        steps_from-IsRunning walk es (step_if duration out s.running walk e s)
          (step_if-IsRunning s.running walk e s h)

    -- The loop of Start never stalls: after any sequence of events, of timers that fire and of calls
    -- that fail or succeed, each of the three timers runs, so that the certificate, the bundle and
    -- the webhook are looked at again.
    pub steps-IsRunning :
        (walk : List Str → List Str) (es : List Event) (m : Manager) (w : W)
        → IsRunning (steps duration out walk es (start duration out m w))
    unfolding start new_backoff_timer
    steps-IsRunning walk es m w =
        steps_from-IsRunning walk es (start duration out m w)
          record { svid = refl; bundle = refl; webhook = refl }
