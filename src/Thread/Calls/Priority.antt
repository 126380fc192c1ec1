-- ===== src/Thread/Calls/Priority.antt =====
-- `set_priority` of thread.rs and `Builder::spawn`: the scheduler runs at once, so the thread that
-- goes on has the highest priority again.
use tacos.Prelude.{ℕ, ◌<◌, ◌≡◌, refl, Option, if◌then◌else◌, ◌==◌, arith, inl}
use tacos.Prelude.Deque.{push_back}
use tacos.Prelude.Outcome.{ok}
use tacos.Prelude.Run.{then-ok}
use tacos.Thread.Scheduler.{queue_count}
use tacos.Thread.State.{Status, Kernel, priorities, set_priority_of}
use tacos.Thread.Manager.{register}
use tacos.Thread.Manager.Invariant.{Inv, IsTop, CanSchedule}
use tacos.Thread.Manager.Switch.{enqueue_lem}
use tacos.Thread.Manager.Reschedule.{Rescheduled, schedule-Rescheduled}
use tacos.Thread.Calls.{set_priority, spawn, build}

-- A well-formed kernel can reschedule.
pub Inv-CanSchedule : (k : Kernel) → Inv k → CanSchedule k
Inv-CanSchedule k v = record {
  table = v.table;
  not_ready = ground (arith, v.running.runs);
  alone = v.running.alone;
  someone = inl v.running.runs;
}

-- `set_priority` to a priority below 64 succeeds: the caller has that priority and the others
-- theirs, the kernel is well formed, and no ready thread exceeds the thread that goes on, which is
-- the caller or a thread that was ready.
set_priority-Rescheduled :
    (p : ℕ) (k : Kernel)
    → Inv k
    → p < queue_count
    → (after : Kernel) × (set_priority p k ≡ (ok tt, after))
      × Rescheduled (set_priority_of k.current p k) after
      × ((t : ℕ) → priorities after t ≡ (if k.current == t then p else priorities k t))
unfolding set_priority
set_priority-Rescheduled p k v h =
    let mid : Kernel = set_priority_of k.current p k in
    let inv : Inv mid = record {
      table = record {
        queue_total = v.table.queue_total;
        queued = λ t. ground (arith, v.table.queued t);
        in_range = λ t. ground (arith, v.table.in_range t);
        stacks = λ t. ground (arith, v.table.stacks t);
      };
      running = record {
        runs = ground (arith, v.running.runs);
        alone = λ t e. ground (arith, v.running.alone t);
      };
    } in
    let (after, runs, r) = schedule-Rescheduled mid (Inv-CanSchedule mid inv) in
    (after, then-ok _ _ refl runs, r, λ t. ground (arith, r.same_priority t))

-- No thread has the next id yet.
abbrev pub IsFresh : Kernel → Type 0
IsFresh k = (k.threads k.next_tid).status ≡ Status.dying

-- `spawn` at a priority below 64 registers a new thread and reschedules: the kernel is well formed
-- with the new thread in it, which has its priority, and no ready thread exceeds the one that goes on.
spawn-Rescheduled :
    (p : ℕ) (pagetable : Option ℕ) (k : Kernel)
    → Inv k
    → IsFresh k
    → p < queue_count
    → (after : Kernel) × (spawn p pagetable k ≡ (ok tt, after))
      × Inv after
      × IsTop after
      × (priorities after k.next_tid ≡ p)
unfolding spawn register
spawn-Rescheduled p pagetable k v fresh h =
    let start : Kernel = build p pagetable k in
    let (qs, adds, n, occ) = enqueue_lem k.next_tid start v.table.queue_total (ground arith) in
    let mid : Kernel = record start { queues = qs; all = push_back k.all k.next_tid } in
    let inv : Inv mid = record {
      table = record {
        queue_total = n;
        queued = λ t. ground (arith, occ t, v.table.queued t, fresh);
        in_range = λ t. ground (arith, v.table.in_range t);
        stacks = λ t. ground (arith, v.table.stacks t);
      };
      running = record {
        runs = ground (arith, v.running.runs, fresh);
        alone = λ t e. ground (arith, v.running.alone t);
      };
    } in
    let (after, runs, r) = schedule-Rescheduled mid (Inv-CanSchedule mid inv) in
    (
      after,
      then-ok _ _ refl (then-ok _ _ (then-ok _ _ adds refl) runs),
      r.inv,
      r.top,
      ground (arith, r.same_priority k.next_tid),
    )
