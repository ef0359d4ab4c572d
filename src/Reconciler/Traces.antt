-- ===== src/Reconciler/Traces.antt =====
-- What the loop does over any sequence of events.
use spire_controller_manager.Prelude.{
  ℕ, zero, suc, ◌+◌, ◌≤◌, List, [], ◌∷◌, ◌≡◌, refl, ap, ◌∙◌, arith,
}
use spire_controller_manager.Reconciler.{
  new_trigger_channel, offer, enter_select, begin_pass, Phase, reconciling, waiting, stopped, Loop,
  Event, trigger, returned, timer_fired, context_done, step, steps, step_from,
}

-- n triggers, and then these events
pub triggers : ℕ → List Event → List Event
triggers zero es = es
triggers (suc n) es = trigger ∷ triggers n es

abbrev during_pass : ℕ → Loop
during_pass k = record { phase = reconciling; passes = k; channel = new_trigger_channel }

-- nothing is queued in a channel without a buffer
trigger-during_pass : (k : ℕ) → step trigger (during_pass k) ≡ during_pass k
unfolding step offer new_trigger_channel
trigger-during_pass k = refl

-- However many triggers come while the callback runs, they are lost: whatever happens afterwards, the
-- loop does what it would have done without them. The channel is the one that New makes.
pub triggers-lost :
    (n k : ℕ) (es : List Event)
    → steps
        (triggers n es)
        (record { phase = reconciling; passes = k; channel = new_trigger_channel })
      ≡ steps es (record { phase = reconciling; passes = k; channel = new_trigger_channel })
unfolding steps triggers
triggers-lost zero k es = refl
triggers-lost (suc n) k es =
    ap (steps (triggers n es)) (trigger-during_pass k) ∙ triggers-lost n k es

pub returns_in : List Event → ℕ
returns_in [] = 0
returns_in (returned ∷ es) = suc (returns_in es)
returns_in (_ ∷ es) = returns_in es

-- a pass that may begin at once
pub ready : Phase → ℕ
ready waiting = 1
ready _ = 0

select-ready :
    (q : ℕ) (l : Loop) → (enter_select q l).passes + ready (enter_select q l).phase ≤ l.passes + 1
unfolding enter_select begin_pass ready
select-ready zero l = omega arith
select-ready (suc q) l = omega arith

step-ready :
    (e : Event) (p : Phase) (l : Loop)
    → l.phase ≡ p
    → (step_from e p l).passes + ready (step_from e p l).phase
      ≤ l.passes + ready p + returns_in (e ∷ [])
unfolding step_from ready returns_in begin_pass
step-ready trigger reconciling l h = rw h (omega arith)
step-ready trigger waiting l h = omega arith
step-ready trigger stopped l h = rw h (omega arith)
step-ready returned reconciling l h = omega (arith, select-ready l.channel.queued l)
step-ready returned waiting l h = rw h (omega arith)
step-ready returned stopped l h = rw h (omega arith)
step-ready timer_fired reconciling l h = rw h (omega arith)
step-ready timer_fired waiting l h = omega arith
step-ready timer_fired stopped l h = rw h (omega arith)
step-ready context_done reconciling l h = rw h (omega arith)
step-ready context_done waiting l h = omega arith
step-ready context_done stopped l h = rw h (omega arith)

returns_first :
    (e : Event) (es : List Event) → returns_in (e ∷ es) ≡ returns_in (e ∷ []) + returns_in es
unfolding returns_in
returns_first e es = ground arith

-- The passes of one call of Run do not overlap: over any sequence of events the callback is called at
-- most once more than it has returned, and no more often than that if no pass can begin at once,
-- whatever the channel holds.
pub passes-bounded :
    (es : List Event) (l : Loop) → (steps es l).passes ≤ l.passes + ready l.phase + returns_in es
unfolding steps step
passes-bounded [] l = omega arith
passes-bounded (e ∷ es) l =
    omega (arith, passes-bounded es (step e l), step-ready e l.phase l refl, returns_first e es)
