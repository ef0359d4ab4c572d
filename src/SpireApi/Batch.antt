-- ===== src/SpireApi/Batch.antt =====
-- runBatch of pkg/spireapi/batch.go, for a callback that changes a state and may fail.
pub mod Coverage
use spire_controller_manager.Prelude.{
  ℕ, zero, suc, ◌+◌, ◌-◌, min, ltb, Bool, true, false, if◌then◌else◌,
}

-- the callback: whether it succeeded, and the state behind it
abbrev pub Callback : Type 0 → Type 0
Callback S = ℕ → ℕ → S → Bool × S

-- if batch < 1 { batch = size }
batch_size : ℕ → ℕ → ℕ
batch_size size zero = size
batch_size size (suc n) = suc n

module _ {S : Type 0} (fn : Callback S) where
  -- The loop from i on; false where the callback failed. The fuel counts the rounds.
  unfoldable pub batch_loop : ℕ → ℕ → ℕ → ℕ → S → Bool × S
  batch_loop zero size batch i s = (true, s)
  batch_loop (suc fuel) size batch i s =
      if◌then◌else◌ {A = Bool × S} (ltb i size)
        (let n = min (size - i) batch in
          let (good, s') = fn i (i + n) s in
          elim good [ true ↦ batch_loop fuel size batch (i + n) s' | false ↦ (false, s') ])
        (true, s)

  -- size rounds are enough, as each one takes at least one element
  unfoldable pub run_batch : ℕ → ℕ → S → Bool × S
  unfolding batch_loop batch_size
  run_batch size batch s = batch_loop size size (batch_size size batch) 0 s
