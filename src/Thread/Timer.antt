-- ===== src/Thread/Timer.antt =====
-- `tick` of src/sbi/timer.rs, run by the timer interrupt. Setting the next timer interrupt is a call
-- of the firmware and is left out.
pub mod Laws
pub mod Sleep
use tacos.Prelude.{ℕ, zero, suc, ◌+◌, ◌-◌, Bool, true, false, List, [], ◌∷◌, leb, length}
use tacos.Prelude.Outcome.{Outcome, ok, Exec}
use tacos.Prelude.Run.{◌>>=◌, ◌>>◌}
use tacos.Thread.State.{Kernel, SleepData, modify}
use tacos.Thread.SleepQueue.{extract_min}
use tacos.Thread.Calls.{wake_up}

abbrev pub with_sleepers : List SleepData → Kernel → Kernel
with_sleepers q k = record k { sleep_queue = q }

-- The loop over the sleep queue: each round wakes the earliest sleeper if it is due. Every round
-- that goes on takes an entry, so fuel above the length of the queue is enough.
pub wake_due : ℕ → ℕ → Exec Kernel Unit
wake_due zero now k = (ok tt, k)
wake_due (suc fuel) now k = elim k.sleep_queue [
  | [] ↦ (ok tt, k)
  | d ∷ ds ↦
      let (low, rest) = extract_min d ds in
      elim (leb low.ticks now) [
        | true ↦ (modify (with_sleepers rest) >> wake_up low.thread >> wake_due fuel now) k
        | false ↦ (ok tt, k)
      ]
]

-- `TICKS.fetch_add(1)`, with interrupts off from then on.
abbrev pub count_tick : Kernel → Kernel
count_tick k = record k { ticks = k.ticks + 1; intr = false }

pub tick : Exec Kernel Unit
unfolding wake_due
tick k =
    (modify count_tick
        >> (λ k. wake_due (suc (length k.sleep_queue)) k.ticks k)
        >> modify (λ k'. record k' { intr = k.intr }))
      k
