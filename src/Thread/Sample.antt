-- ===== src/Thread/Sample.antt =====
-- A small kernel for the tests: thread 0 runs, thread 1 idles, thread 2 sleeps until tick 5, and
-- thread 3 is blocked.
use tacos.Prelude.{ℕ, refl, true, none, [], ◌∷◌, set, arith}
use tacos.Thread.Scheduler.{empty_queues}
use tacos.Thread.State.{Status, Thread, Kernel, new_thread, update}
use tacos.Thread.Manager.Invariant.{Inv}
use tacos.Thread.SleepQueue.{Sleeping}

abbrev pub with_status : Status → ℕ → Thread
with_status s p = record (new_thread p none) { status = s }

abbrev pub sample : Kernel
sample = record {
  threads =
      update
        (update
          (update (update (λ t. with_status Status.dying 0) 0 (with_status Status.running 31)) 1
            (with_status Status.ready 0))
          2 (with_status Status.blocked 40))
        3 (with_status Status.blocked 63);
  next_tid = 4;
  queues = set empty_queues 0 (1 ∷ []);
  current = 0;
  all = 0 ∷ 1 ∷ 2 ∷ 3 ∷ [];
  intr = true;
  active_table = none;
  sleep_queue = record { ticks = 5; thread = 2 } ∷ [];
  ticks = 4;
}

pub sample-Inv : Inv sample
sample-Inv = record {
  table = record {
    queue_total = refl;
    queued = λ t. ground arith;
    in_range = λ t. ground arith;
    stacks = λ t. ground arith;
  };
  running = record { runs = refl; alone = λ t h. ground arith };
}

pub sample-Sleeping : Sleeping sample
sample-Sleeping t = ground arith
