-- ===== src/Thread/State.antt =====
-- The data of src/thread/imp.rs and src/thread/manager.rs, with the sleep queue of src/sleepq.rs and
-- the tick count of src/sbi/timer.rs. A thread is known by its id, and `threads` is the heap of
-- all `Thread` objects. Names, user processes and register contexts are left out, but for one
-- local of a context: `level` is the interrupt level that a thread restores when it is switched
-- to, its `old` in `Manager::schedule`, or `true` where it starts in `kernel_thread`.
use tacos.Prelude.{ℕ, ◌≡◌, Bool, true, false, not, Option, none, List, [], ◌==◌, if◌then◌else◌}
use tacos.Prelude.Outcome.{ok, panic, Exec}
use tacos.Thread.Scheduler.{Queues}

pub data Status : Type 0 where
  ready running blocked dying : Status

abbrev pub is_running : Status → Bool
is_running Status.running = true
is_running _ = false

abbrev pub is_ready : Status → Bool
is_ready Status.ready = true
is_ready _ = false

abbrev pub is_blocked : Status → Bool
is_blocked Status.blocked = true
is_blocked _ = false

-- `DonationData` of src/sync/sleep.rs
pub record DonationData : Type 0 where
  pub donner : ℕ
  pub acceptor : ℕ
  pub donner_priority : ℕ
  pub prev_priority : ℕ
  pub is_donner : Bool
  pub lockid : ℕ

pub record Thread : Type 0 where
  pub status : Status
  pub priority : ℕ
  pub priority_setted : Option ℕ
  pub stack_word : ℕ
  pub pagetable : Option ℕ
  pub donationq : List DonationData
  pub stored_prev : ℕ × ℕ
  pub level : Bool

abbrev pub stack_magic : ℕ
stack_magic = 0xdeadbeef

abbrev pub pri_default : ℕ
pri_default = 31

abbrev pub pri_max : ℕ
pri_max = 63

abbrev pub pri_min : ℕ
pri_min = 0

-- `Thread::overflow`
abbrev pub overflow : Thread → Bool
overflow t = not (t.stack_word == stack_magic)

-- `Thread::new`, after `Builder::build` has put the magic number on the stack.
abbrev pub new_thread : ℕ → Option ℕ → Thread
new_thread priority pagetable = record {
  status = Status.ready;
  priority = priority;
  priority_setted = none;
  stack_word = stack_magic;
  pagetable = pagetable;
  donationq = [];
  stored_prev = (0xFFFFFFFF, 0);
  level = true;
}

-- An entry of the sleep queue.
pub record SleepData : Type 0 where
  pub ticks : ℕ
  pub thread : ℕ

pub record Kernel : Type 0 where
  pub threads : ℕ → Thread
  pub next_tid : ℕ
  pub queues : Queues
  pub current : ℕ
  pub all : List ℕ
  pub intr : Bool
  pub active_table : Option ℕ
  pub sleep_queue : List SleepData
  pub ticks : ℕ

abbrev pub update {ℓ} : {A : Type ℓ} → (ℕ → A) → ℕ → A → ℕ → A
update f t a u = if t == u then a else f u

abbrev pub current_thread : Kernel → Thread
current_thread k = k.threads k.current

-- The priorities as the scheduler reads them.
abbrev pub priorities : Kernel → ℕ → ℕ
priorities k t = (k.threads t).priority

-- `Thread::set_status`
abbrev pub set_status : ℕ → Status → Kernel → Kernel
set_status t s k = record k { threads = update k.threads t (record (k.threads t) { status = s }) }

abbrev pub set_priority_of : ℕ → ℕ → Kernel → Kernel
set_priority_of t p k = record k {
  threads = update k.threads t (record (k.threads t) { priority = p });
}

abbrev pub modify : (Kernel → Kernel) → Exec Kernel Unit
modify f k = (ok tt, f k)

-- `assert!`
abbrev pub assert : (Kernel → Bool) → Exec Kernel Unit
assert test k = if test k then (ok tt, k) else (panic, k)

pub assert-ok : (test : Kernel → Bool) (k : Kernel) → test k ≡ true → assert test k ≡ (ok tt, k)
assert-ok test k e = rw e
