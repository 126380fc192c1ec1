-- ===== src/Thread/Calls/Laws.antt =====
-- The calls of thread.rs keep the kernel well formed.
use tacos.Prelude.{
  Bool-cases, ℕ, ◌≡◌, ◌≢◌, refl, ap, ◌∙◌, true, false, if◌then◌else◌, ◌==◌, arith, inl, inr,
}
use tacos.Prelude.Outcome.{ok, panic}
use tacos.Prelude.Run.{then-ok, then-panic}
use tacos.Thread.State.{
  Status, Kernel, is_running, is_ready, is_blocked, current_thread, priorities, set_status,
  assert-ok,
}
use tacos.Thread.Manager.{schedule}
use tacos.Thread.Manager.Invariant.{Inv, IsTop, CanSchedule}
use tacos.Thread.Manager.Switch.{enqueue_lem}
use tacos.Thread.Manager.Reschedule.{schedule-Rescheduled}
use tacos.Thread.Calls.{block, exit, wake_up, sleeps, mark}

-- The current thread stops, and another can run.
mark-CanSchedule :
    (s : Status) (k : Kernel) (t : ℕ)
    → is_ready s ≡ false
    → is_running s ≡ false
    → Inv k
    → is_ready (k.threads t).status ≡ true
    → CanSchedule (mark s k)
mark-CanSchedule s k t a b v h =
    let not_ready : is_ready (current_thread k).status ≡ false = ground (arith, v.running.runs) in
    record {
      table = record {
        queue_total = v.table.queue_total;
        queued = λ u. ground (arith, v.table.queued u, not_ready);
        in_range = λ u. ground (arith, v.table.in_range u);
        stacks = λ u. ground (arith, v.table.stacks u);
      };
      not_ready = ground arith;
      alone = λ u e. ground (arith, v.running.alone u);
      someone = inr (t, ground (arith, not_ready));
    }

-- A call that gives up the processor in status `s`.
pub record GivesUp (s : Status) (k after : Kernel) : Type 0 where
  pub inv : Inv after
  pub top : IsTop after
  pub keeps_status : (after.threads k.current).status ≡ s
  pub successor : is_ready (k.threads after.current).status ≡ true
  pub others :
      (t : ℕ) → t ≢ k.current → t ≢ after.current → (after.threads t).status ≡ (k.threads t).status
  pub same_priority : (t : ℕ) → priorities after t ≡ priorities k t
  pub still_blocked :
      (t : ℕ) → is_blocked (k.threads t).status ≡ true → is_blocked (after.threads t).status ≡ true
  pub sleepers : after.sleep_queue ≡ k.sleep_queue
  pub clock : after.ticks ≡ k.ticks

pub gives_up :
    (s : Status) (k : Kernel) (t : ℕ)
    → is_ready s ≡ false
    → is_running s ≡ false
    → Inv k
    → is_ready (k.threads t).status ≡ true
    → (after : Kernel) × (schedule (mark s k) ≡ (ok tt, after)) × GivesUp s k after
gives_up s k t a b v h =
    let (after, runs, r) = schedule-Rescheduled (mark s k) (mark-CanSchedule s k t a b v h) in
    let self : (k.current == k.current) ≡ true = ground arith in
    let kept : (after.threads k.current).status ≡ s = ground (arith, r.status k.current) in
    (
      after,
      runs,
      record {
        inv = r.inv;
        top = r.top;
        keeps_status = kept;
        successor = elim r.stays_or_leaves [
          | inl (c, _) ↦
              let stopped : is_running (after.threads after.current).status ≡ false =
                ap (λ u. is_running (after.threads u).status) c ∙ ap is_running kept ∙ b in
              absurd (cc (stopped, r.inv.running.runs))
          | inr (up, _) ↦ ground (arith, up)
        ];
        others = λ u apart still.
            let elsewhere : (k.current == u) ≡ false = ground arith in
            let same : ((mark s k).threads u).status ≡ (k.threads u).status = rw elsewhere refl in
            elim (Bool-cases (is_ready (k.threads u).status)) [
              | inl up ↦ r.waiting u (ap is_ready same ∙ up) still ∙ same
              | inr down ↦
                  let stopped : is_running (k.threads u).status ≡ false =
                    ground (arith, v.running.alone u) in
                  r.status u (ap is_running same ∙ stopped) (ap is_ready same ∙ down) ∙ same
            ];
        same_priority = λ u. ground (arith, r.same_priority u);
        still_blocked = λ u h. ground (arith, r.status u, v.running.runs);
        sleepers = r.sleepers;
        clock = r.clock;
      },
    )

-- From a well-formed kernel with a ready thread, `block` succeeds: the caller is blocked, the kernel
-- is well formed, and a thread that was ready runs, which no ready thread exceeds in priority.
pub block-GivesUp :
    (k : Kernel) (t : ℕ)
    → Inv k
    → is_ready (k.threads t).status ≡ true
    → (after : Kernel) × (block k ≡ (ok tt, after)) × GivesUp Status.blocked k after
unfolding block
block-GivesUp k t v h =
    let (after, runs, g) = gives_up Status.blocked k t refl refl v h in
    (after, then-ok _ _ refl runs, g)

-- From a well-formed kernel with a ready thread, `exit` succeeds: the caller is dying, the kernel is
-- well formed, and a thread that was ready runs, which no ready thread exceeds in priority.
pub exit-GivesUp :
    (k : Kernel) (t : ℕ)
    → Inv k
    → is_ready (k.threads t).status ≡ true
    → (after : Kernel) × (exit k ≡ (ok tt, after)) × GivesUp Status.dying k after
unfolding exit
exit-GivesUp k t v h =
    let (after, runs, g) = gives_up Status.dying k t refl refl v h in
    (after, then-ok _ _ refl runs, g)

-- What `wake_up` leaves when it succeeds.
pub record Woken (t : ℕ) (k after : Kernel) : Type 0 where
  pub inv : Inv after
  pub status :
      (u : ℕ) → (after.threads u).status ≡ (if t == u then Status.ready else (k.threads u).status)
  pub same_priority : (u : ℕ) → priorities after u ≡ priorities k u
  pub current : after.current ≡ k.current
  pub sleepers : after.sleep_queue ≡ k.sleep_queue
  pub level : after.intr ≡ k.intr
  pub ticks : after.ticks ≡ k.ticks

-- From a well-formed kernel, `wake_up` of a blocked thread succeeds: the thread becomes ready and is
-- queued once, and no status, priority, sleeper or level changes otherwise.
pub wake_up-Woken :
    (t : ℕ) (k : Kernel)
    → Inv k
    → is_blocked (k.threads t).status ≡ true
    → (after : Kernel) × (wake_up t k ≡ (ok tt, after)) × Woken t k after
unfolding wake_up
wake_up-Woken t k v h =
    let mid : Kernel = set_status t Status.ready k in
    let (qs, adds, n, occ) =
      enqueue_lem t mid v.table.queue_total (ground (arith, v.table.in_range t)) in
    let asleep : is_ready (k.threads t).status ≡ false = ground arith in
    let still : is_running (k.threads t).status ≡ false = ground arith in
    (
      record mid { queues = qs },
      then-ok _ _ (assert-ok (sleeps t) k h) (then-ok _ _ refl adds),
      record {
        inv = record {
          table = record {
            queue_total = n;
            queued = λ u. ground (arith, occ u, v.table.queued u, asleep);
            in_range = λ u. ground (arith, v.table.in_range u);
            stacks = λ u. ground (arith, v.table.stacks u);
          };
          running = record {
            runs = ground (arith, v.running.runs, still);
            alone = λ u e. ground (arith, v.running.alone u);
          };
        };
        status = λ u. ground arith;
        same_priority = λ u. ground arith;
        current = refl;
        sleepers = refl;
        level = refl;
        ticks = refl;
      },
    )

-- `wake_up` of a thread that is not blocked panics.
pub wake_up_other :
    (t : ℕ) (k : Kernel) → is_blocked (k.threads t).status ≡ false → wake_up t k ≡ (panic, k)
unfolding wake_up
wake_up_other t k h = then-panic _ _ (rw h)
