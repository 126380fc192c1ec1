-- ===== src/Thread/Calls.antt =====
-- The thread interface of src/thread.rs, and `Builder::spawn` of src/thread/imp.rs. A call that
-- gives up the processor is modelled up to the point where the next thread goes on.
pub mod Laws
pub mod Priority
use tacos.Prelude.{
  Bool, ℕ, zero, suc, ◌+◌, Option, some, none, List, [], ◌∷◌, true, false, if◌then◌else◌,
}
use tacos.Prelude.Int.{ℤ, pos, negsuc}
use tacos.Prelude.Outcome.{Outcome, ok, Exec, pure}
use tacos.Prelude.Run.{◌>>=◌, ◌>>◌}
use tacos.Thread.State.{
  Status, Thread, Kernel, is_blocked, current_thread, set_status, set_priority_of, update, modify,
  assert, new_thread,
}
use tacos.Thread.Manager.{register, enqueue, schedule}

abbrev pub mark : Status → Kernel → Kernel
mark s k = set_status k.current s k

-- `block`
pub block : Exec Kernel Unit
block = modify (mark Status.blocked) >> schedule

-- `exit`, whose `unreachable!` stands behind the switch.
pub exit : Exec Kernel Unit
exit = modify (mark Status.dying) >> schedule

abbrev pub sleeps : ℕ → Kernel → Bool
sleeps t k = is_blocked (k.threads t).status

-- `wake_up`
unfoldable pub wake_up : ℕ → Exec Kernel Unit
wake_up t = assert (sleeps t) >> modify (set_status t Status.ready) >> enqueue t

-- The part of `set_priority` before the thread can be switched away from.
pub set_priority : ℕ → Exec Kernel Unit
set_priority p = modify (λ k. set_priority_of k.current p k) >> schedule

-- Its last statement, which runs when the thread that called it is current again.
pub remember_priority : ℕ → Kernel → Kernel
remember_priority p k = record k {
  threads = update k.threads k.current (record (current_thread k) { priority_setted = some p });
}

pub get_priority : Kernel → ℕ
get_priority k = (current_thread k).priority

abbrev pub fall_asleep : ℕ → Kernel → Kernel
fall_asleep n k = record k {
  sleep_queue = record { ticks = k.ticks + n; thread = k.current } ∷ k.sleep_queue;
}

-- `sleep`: the interrupt level is lowered around the push, and restored before `block`.
unfoldable pub sleep : ℤ → Exec Kernel Unit
unfolding block
sleep (pos zero) = pure tt
sleep (pos (suc n)) = modify (fall_asleep (suc n)) >> block
sleep (negsuc n) = pure tt

abbrev pub build : ℕ → Option ℕ → Kernel → Kernel
build priority pagetable k = record k {
  threads = update k.threads k.next_tid (new_thread priority pagetable);
  next_tid = suc k.next_tid;
}

-- `Builder::spawn`
pub spawn : ℕ → Option ℕ → Exec Kernel Unit
spawn priority pagetable k =
    (modify (build priority pagetable) >> register k.next_tid >> schedule) k
