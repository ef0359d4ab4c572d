-- ===== src/Reconciler.antt =====
-- pkg/reconciler/reconciler.go: one call of Run as a machine over what happens to it, with the channel
-- of triggers. The program calls Run once on each reconciler that it makes.
pub mod Traces
use spire_controller_manager.Prelude.{ℕ, zero, suc, ◌+◌, ltb, List, [], ◌∷◌, if◌then◌else◌}

-- a channel of empty structs: how many it can hold and how many it holds
pub record Channel : Type 0 where
  pub capacity : ℕ
  pub queued : ℕ

-- triggerCh of New: make(chan struct{}) has no buffer
unfoldable pub new_trigger_channel : Channel
new_trigger_channel = record { capacity = 0; queued = 0 }

-- a send in a select with a default, when nobody receives: it goes ahead if there is room
offer : Channel → Channel
offer c = if ltb c.queued c.capacity then record c { queued = suc c.queued } else c

-- a receive in a select with a default
drain_channel : ℕ → Channel → Channel
drain_channel zero c = c
drain_channel (suc n) c = record c { queued = n }

-- the callback runs; the loop is in its select; Run has returned
pub data Phase : Type 0 where
  reconciling waiting stopped : Phase

-- how far the loop is, how many times the callback has been called, and the channel
pub record Loop : Type 0 where
  pub phase : Phase
  pub passes : ℕ
  pub channel : Channel

-- Trigger is called; the callback returns; the select sees the timer, or the end of the context
pub data Event : Type 0 where
  trigger returned timer_fired context_done : Event

begin_pass : Loop → Loop
begin_pass l = record l { phase = reconciling; passes = suc l.passes }

-- Run, up to the first call of the callback
unfoldable pub run : Channel → Loop
unfolding drain_channel begin_pass
run c = begin_pass (record { phase = waiting; passes = 0; channel = drain_channel c.queued c })

-- the loop comes to its select, where a trigger that is queued is received
enter_select : ℕ → Loop → Loop
unfolding begin_pass
enter_select zero l = record l { phase = waiting }
enter_select (suc n) l = begin_pass (record l { channel = record l.channel { queued = n } })

-- Trigger hands over to a loop in its select. The callback returns while it runs, and the select sees
-- the timer or the context while the loop is in it: elsewhere these do not happen.
step_from : Event → Phase → Loop → Loop
unfolding begin_pass offer enter_select
step_from trigger waiting l = begin_pass l
step_from trigger reconciling l = record l { channel = offer l.channel }
step_from trigger stopped l = record l { channel = offer l.channel }
step_from returned reconciling l = enter_select l.channel.queued l
step_from timer_fired waiting l = begin_pass l
step_from context_done waiting l = record l { phase = stopped }
step_from e p l = l

unfoldable pub step : Event → Loop → Loop
unfolding step_from
step e l = step_from e l.phase l

unfoldable pub steps : List Event → Loop → Loop
unfolding step
steps [] l = l
steps (e ∷ es) l = steps es (step e l)
