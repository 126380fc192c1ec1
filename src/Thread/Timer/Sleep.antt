-- ===== src/Thread/Timer/Sleep.antt =====
-- `sleep` of thread.rs, with the sleep queue that `tick` of src/sbi/timer.rs reads.
use tacos.Prelude.{ℕ, suc, ◌≡◌, refl, ap, true, false, arith}
use tacos.Prelude.Int.{pos}
use tacos.Prelude.Outcome.{ok}
use tacos.Prelude.Run.{then-ok}
use tacos.Thread.State.{Status, Kernel, is_ready, is_blocked}
use tacos.Thread.SleepQueue.{entries, Sleeping}
use tacos.Thread.Manager.Invariant.{Inv}
use tacos.Thread.Calls.{sleep, fall_asleep}
use tacos.Thread.Calls.Laws.{GivesUp, block-GivesUp}
use tacos.Thread.Timer.Laws.{Inv-reset}

-- From a well-formed kernel with a ready thread, whose sleepers are blocked and have one entry each,
-- `sleep` for a positive number of ticks succeeds: the caller is blocked, with one new entry for the
-- tick that it asked for, and a thread that was ready runs, which no ready thread exceeds in
-- priority. Again the sleepers are blocked and have one entry each.
sleep-GivesUp :
    (n : ℕ) (k : Kernel) (t : ℕ)
    → Inv k
    → Sleeping k
    → is_ready (k.threads t).status ≡ true
    → (after : Kernel) × (sleep (pos (suc n)) k ≡ (ok tt, after))
      × GivesUp Status.blocked (fall_asleep (suc n) k) after
      × Sleeping after
unfolding sleep
sleep-GivesUp n k t v s h =
    let start : Kernel = fall_asleep (suc n) k in
    let inv : Inv start = Inv-reset start.sleep_queue k.ticks k.intr k v in
    let (after, runs, g) = block-GivesUp start t inv h in
    let awake : is_blocked (k.threads k.current).status ≡ false = ground (arith, v.running.runs) in
    (
      after,
      then-ok _ _ refl runs,
      g,
      λ u.
          let queue = ap (entries u) g.sleepers in
          ground (arith, queue, s u, awake, g.keeps_status, g.still_blocked u),
    )
