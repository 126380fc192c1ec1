-- ===== src/Trap/Faults.antt =====
-- What the timer and a page fault of a user process do to the threads.
use tacos.Prelude.{ℕ, ◌+◌, ◌≡◌, refl, ap, ◌∙◌, true, if◌then◌else◌}
use tacos.Prelude.Outcome.{ok, Exec}
use tacos.Prelude.Run.{then-ok}
use tacos.Thread.State.{Status, Kernel, is_ready}
use tacos.Thread.Manager.{schedule}
use tacos.Thread.Manager.Invariant.{Inv, IsTop}
use tacos.Thread.Manager.Reschedule.{Rescheduled, schedule-Rescheduled}
use tacos.Thread.SleepQueue.{Sleeping}
use tacos.Thread.Calls.{exit}
use tacos.Thread.Calls.Laws.{GivesUp, exit-GivesUp}
use tacos.Thread.Calls.Priority.{Inv-CanSchedule}
use tacos.Thread.Timer.{tick, count_tick}
use tacos.Thread.Timer.Laws.{Ticked, tick-Ticked}
use tacos.Trap.{
  Machine, Cause, Labels, trap_handler, fault_handler, supervisor_fault, in_kernel, set_sie,
}

in_kernel-ok :
    (a : Exec Kernel Unit) (m : Machine) {k : Kernel}
    → a m.ring.kernel ≡ (ok tt, k)
    → in_kernel a m ≡ (ok tt, record m { ring = record m.ring { kernel = k } })
in_kernel-ok a m e = rw e refl

-- What a timer interrupt leaves: the tick has been counted and the due sleepers woken before the
-- scheduler ran, so that none of them exceeds the thread that goes on.
pub record Preempted (m after : Machine) : Type 0 where
  pub frame : after.frame ≡ m.frame
  pub inv : Inv after.ring.kernel
  pub top : IsTop after.ring.kernel
  pub on : after.sie ≡ true
  pub ticked :
      (mid : Kernel) × Ticked (m.ring.kernel.ticks + 1) (count_tick m.ring.kernel) mid
      × Rescheduled mid after.ring.kernel

-- From a well-formed kernel, a timer interrupt succeeds: it counts the tick, wakes exactly the sleepers
-- whose wake time has come, and then the scheduler runs with them in the queues, so no ready thread has
-- a higher priority than the one that goes on. The frame of the trap stays as it is, and traps are on.
pub trap_handler-Preempted :
    (labels : Labels) (id status : ℕ) (m : Machine)
    → Inv m.ring.kernel
    → Sleeping m.ring.kernel
    → (after : Machine) × (trap_handler labels id status Cause.supervisor_timer m ≡ (ok tt, after))
      × Preempted m after
unfolding trap_handler
trap_handler-Preempted labels id status m v s =
    let (mid, ticks, t, level) = tick-Ticked m.ring.kernel v s in
    let (k, runs, r) = schedule-Rescheduled mid (Inv-CanSchedule mid t.inv) in
    let woken : Machine = set_sie (record m { ring = record m.ring { kernel = mid } }) in
    (
      record woken { ring = record woken.ring { kernel = k } },
      then-ok _ _ (in_kernel-ok tick m ticks) (then-ok _ _ refl (in_kernel-ok schedule woken runs)),
      record { frame = refl; inv = r.inv; top = r.top; on = refl; ticked = (mid, t, r) },
    )

-- The page faults.
pub data IsPageFault : Cause → Type 0 where
  loads : IsPageFault Cause.load_page_fault
  stores : IsPageFault Cause.store_page_fault
  fetches : IsPageFault Cause.instruction_page_fault

trap_handler-fault :
    (labels : Labels) (id status : ℕ) (c : Cause) (m : Machine)
    → IsPageFault c
    → trap_handler labels id status c m ≡ fault_handler labels m
unfolding trap_handler
trap_handler-fault labels id status c m loads = refl
trap_handler-fault labels id status c m stores = refl
trap_handler-fault labels id status c m fetches = refl

-- A page fault of a user process ends its thread and no other: from a well-formed kernel with a ready
-- thread, the kernel does not panic, the thread is dying, the kernel is well formed, and a thread that
-- was ready runs, which no ready thread exceeds in priority. Every other thread but these two has the
-- status that it had, no priority has changed, nor have the sleep queue and the tick count.
pub trap_handler-GivesUp :
    (labels : Labels) (id status : ℕ) (c : Cause) (m : Machine) (t : ℕ)
    → IsPageFault c
    → m.frame.user ≡ true
    → Inv m.ring.kernel
    → is_ready (m.ring.kernel.threads t).status ≡ true
    → (after : Machine) × (trap_handler labels id status c m ≡ (ok tt, after))
      × GivesUp Status.dying m.ring.kernel after.ring.kernel
unfolding fault_handler
trap_handler-GivesUp labels id status c m t fault user v ready =
    let (k, exits, g) = exit-GivesUp m.ring.kernel t v ready in
    let on : Machine = set_sie m in
    (
      record on { ring = record on.ring { kernel = k } },
      trap_handler-fault labels id status c m fault
          ∙ ap (λ b. if b then in_kernel exit on else supervisor_fault labels on) user
          ∙ in_kernel-ok exit on exits,
      g,
    )
