-- ===== src/Examples/Loops.antt =====
-- The loop of a reconciler.
use spire_controller_manager.Prelude.{◌+◌, ◌≤◌, [], ◌∷◌, ◌≡◌, refl}
use spire_controller_manager.Reconciler.{
  new_trigger_channel, reconciling, run, trigger, returned, timer_fired, steps,
}
use spire_controller_manager.Reconciler.Traces.{
  triggers, triggers-lost, ready, returns_in, passes-bounded,
}

triggers-lost_example :
    steps
      (triggers 3 (returned ∷ timer_fired ∷ []))
      (record { phase = reconciling; passes = 7; channel = new_trigger_channel })
    ≡ steps
        (returned ∷ timer_fired ∷ [])
        (record { phase = reconciling; passes = 7; channel = new_trigger_channel })
triggers-lost_example = triggers-lost 3 7 (returned ∷ timer_fired ∷ [])

-- a buffer would keep one of them
trigger_kept :
    steps
      (trigger ∷ trigger ∷ returned ∷ [])
      (record { phase = reconciling; passes = 7; channel = record { capacity = 1; queued = 0 } })
    ≡ record { phase = reconciling; passes = 8; channel = record { capacity = 1; queued = 0 } }
unfolding steps
trigger_kept = refl

passes-bounded_example :
    (steps (trigger ∷ returned ∷ timer_fired ∷ []) (run new_trigger_channel)).passes
    ≤ (run new_trigger_channel).passes
      + ready (run new_trigger_channel).phase
      + returns_in (trigger ∷ returned ∷ timer_fired ∷ [])
passes-bounded_example =
    passes-bounded (trigger ∷ returned ∷ timer_fired ∷ []) (run new_trigger_channel)
