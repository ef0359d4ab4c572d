-- ===== src/WebhookManager/Backoff.antt =====
-- pkg/webhookmanager/backoff.go: a timer that backs off. The durations of the package backoff are a
-- parameter: the duration of an attempt, between a least and a greatest one.
use spire_controller_manager.Prelude.{ℕ, suc, Bool, true, false, Option, none, some}
use spire_controller_manager.Prelude.Int.{ℤ}

abbrev pub Durations : Type 0
Durations = ℤ → ℤ → ℕ → ℤ

-- the attempt of the package backoff, and the duration that the timer runs for; none once it fired
pub record BackoffTimer : Type 0 where
  pub min_duration : ℤ
  pub max_duration : ℤ
  pub attempt : ℕ
  pub armed : Option ℤ

module _ (duration : Durations) where
  -- BackOff: backoff.Duration() counts the attempt
  unfoldable pub back_off : BackoffTimer → BackoffTimer
  back_off t = record t {
    attempt = suc t.attempt;
    armed = some (duration t.min_duration t.max_duration t.attempt);
  }

  unfoldable pub reset : BackoffTimer → BackoffTimer
  unfolding back_off
  reset t = back_off (record t { attempt = 0 })

  unfoldable pub new_backoff_timer : ℤ → ℤ → BackoffTimer
  new_backoff_timer least most = record {
    min_duration = least;
    max_duration = most;
    attempt = 1;
    armed = some (duration least most 0);
  }

  -- timer.BackOff() on an error, timer.Reset() without one
  unfoldable pub rearm : Bool → BackoffTimer → BackoffTimer
  unfolding back_off reset
  rearm false t = back_off t
  rearm true t = reset t

-- the timer's channel is received from
unfoldable pub fired : BackoffTimer → BackoffTimer
fired t = record t { armed = none }
