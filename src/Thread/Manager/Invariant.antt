-- ===== src/Thread/Manager/Invariant.antt =====
-- What holds of the kernel between two calls of the thread interface.
use tacos.Prelude.{ℕ, ◌≤◌, ◌<◌, ◌≡◌, ◌⊎◌, true, false, length, if◌then◌else◌}
use tacos.Thread.Scheduler.{queue_count}
use tacos.Thread.Scheduler.Queues.{occurs}
use tacos.Thread.State.{Kernel, is_running, is_ready, stack_magic, current_thread, priorities}

-- The queues hold exactly the ready threads, each once; priorities have a queue; no stack has
-- overflowed.
pub record IsQueued (k : Kernel) : Type 0 where
  pub queue_total : length k.queues ≡ queue_count
  pub queued : (t : ℕ) → occurs t k.queues ≡ (if is_ready (k.threads t).status then 1 else 0)
  pub in_range : (t : ℕ) → priorities k t < queue_count
  pub stacks : (t : ℕ) → (k.threads t).stack_word ≡ stack_magic

-- The current thread, and no other, is running.
pub record IsRunning (k : Kernel) : Type 0 where
  pub runs : is_running (current_thread k).status ≡ true
  pub alone : (t : ℕ) → is_running (k.threads t).status ≡ true → t ≡ k.current

pub record Inv (k : Kernel) : Type 0 where
  pub table : IsQueued k
  pub running : IsRunning k

-- No ready thread has a higher priority than the current one.
abbrev pub IsTop : Kernel → Type 0
IsTop k =
    (t : ℕ) → is_ready (k.threads t).status ≡ true → priorities k t ≤ (current_thread k).priority

-- Where `schedule` is called: the current thread runs, has blocked itself or is dying, and some
-- thread can run.
pub record CanSchedule (k : Kernel) : Type 0 where
  pub table : IsQueued k
  pub not_ready : is_ready (current_thread k).status ≡ false
  pub alone : (t : ℕ) → is_running (k.threads t).status ≡ true → t ≡ k.current
  pub someone :
      (is_running (current_thread k).status ≡ true)
      ⊎ ((t : ℕ) × (is_ready (k.threads t).status ≡ true))
