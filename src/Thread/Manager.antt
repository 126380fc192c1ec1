-- ===== src/Thread/Manager.antt =====
-- src/thread/manager.rs: choosing a thread and switching to it. The thread that `schedule` switches
-- away from goes on after the call when it is switched to again; a run of `schedule` ends where
-- the thread that has become current goes on.
pub mod Invariant
pub mod Switch
pub mod Reschedule
use tacos.Prelude.{
  ℕ, Bool, true, false, not, ◌||◌, ◌&&◌, Option, none, some, List, [], ◌∷◌, ◌++◌, ◌==◌,
  if◌then◌else◌,
}
use tacos.Prelude.Deque.{push_back}
use tacos.Prelude.Outcome.{Outcome, ok, panic, Exec, pure, crash}
use tacos.Prelude.Run.{◌>>=◌, ◌>>◌}
use tacos.Thread.Scheduler
use tacos.Thread.Scheduler.{Queues}
use tacos.Thread.State.{
  Status, Thread, Kernel, is_running, is_ready, overflow, current_thread, priorities, set_status,
  update, modify, assert,
}

-- `self.scheduler.lock().register(thread)`
unfoldable pub enqueue : ℕ → Exec Kernel Unit
unfolding Scheduler.register
enqueue t k =
    let (r, qs) = Scheduler.register (priorities k) t k.queues in (r, record k { queues = qs })

-- `Manager::register`
unfoldable pub register : ℕ → Exec Kernel Unit
unfolding enqueue
register t = enqueue t >> modify (λ k. record k { all = push_back k.all t })

-- `self.scheduler.lock().schedule()`
unfoldable pub next_thread : Exec Kernel (Option ℕ)
unfolding Scheduler.schedule
next_thread k =
    let (r, qs) =
      Scheduler.schedule (priorities k) (current_thread k).priority
        (is_running (current_thread k).status) k.queues in
    (r, record k { queues = qs })

pub without : ℕ → List ℕ → List ℕ
without t [] = []
without t (u ∷ us) = let rest = without t us in if u == t then rest else u ∷ rest

-- The `match` of `schedule_tail` on the status of the previous thread.
pub retire : ℕ → Status → Exec Kernel Unit
unfolding enqueue without
retire previous Status.dying = modify (λ k. record k { all = without previous k.all })
retire previous Status.running = modify (set_status previous Status.ready) >> enqueue previous
retire previous Status.blocked = pure tt
retire previous Status.ready = crash

abbrev pub intr_off : Kernel → Bool
intr_off k = not k.intr

-- `pt.activate()` for the page table of the current thread, or for the kernel's.
abbrev pub activate : Kernel → Kernel
activate k = record k { active_table = (current_thread k).pagetable }

pub schedule_tail : ℕ → Exec Kernel Unit
unfolding retire
schedule_tail previous =
    assert intr_off >> (λ k. retire previous (k.threads previous).status k) >> modify activate

-- `assert_eq!(next.status(), Status::Ready)` and `assert!(!next.overflow())`
abbrev pub next_is_ready : ℕ → Kernel → Bool
next_is_ready next k = is_ready (k.threads next).status

abbrev pub next_has_stack : ℕ → Kernel → Bool
next_has_stack next k = not (overflow (k.threads next))

-- `mem::replace(self.current, next)`, once `next` is marked as running; the previous thread keeps
-- its local `old`.
abbrev pub hand_over : Bool → ℕ → Kernel → Kernel
hand_over old next k =
    let k1 = set_status next Status.running k in
    record k1 {
      current = next;
      threads = update k1.threads k.current (record (k1.threads k.current) { level = old });
    }

-- `interrupt::set(old)` in the thread that has been switched to.
abbrev pub restore_level : Kernel → Kernel
restore_level k = record k { intr = (current_thread k).level }

-- From the chosen thread on: the switch, `schedule_tail` on the new stack, and the interrupt level
-- that the new current thread restores.
pub switch_to : Bool → ℕ → Exec Kernel Unit
unfolding schedule_tail
switch_to old next =
    assert (next_is_ready next)
    >> assert (next_has_stack next)
    >> (λ k. (ok k.current, hand_over old next k))
    >>= λ previous. schedule_tail previous >> modify restore_level

pub resume : Bool → Option ℕ → Exec Kernel Unit
unfolding switch_to
resume old none = modify (λ k. record k { intr = old })
resume old (some next) = switch_to old next

abbrev pub is_some : Option ℕ → Bool
is_some none = false
is_some (some _) = true

-- `self.current.lock().status() == Status::Running || next.is_some()`
abbrev pub can_go_on : Option ℕ → Kernel → Bool
can_go_on next k = is_running (current_thread k).status || is_some next

-- `Manager::schedule`
unfoldable pub schedule : Exec Kernel Unit
unfolding next_thread resume
schedule k =
    let old = k.intr in
    (next_thread >>= λ next.
    assert (can_go_on next) >> assert (λ k. next_has_stack k.current k) >> resume old next)
      (record k { intr = false })
