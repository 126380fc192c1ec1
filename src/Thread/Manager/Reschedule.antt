-- ===== src/Thread/Manager/Reschedule.antt =====
-- `Manager::schedule` of manager.rs: the thread that runs afterwards has the highest priority.
use tacos.Prelude.{
  ap, ◌==◌, Bool-cases, Option, none, some, ◌⊎◌, inl, inr, sym, ℕ, ◌≤◌, ◌<◌, ◌≡◌, ◌≢◌, refl, ◌∙◌,
  true, false, length, arith,
}
use tacos.Prelude.Outcome.{ok}
use tacos.Prelude.Run.{bind-ok, then-ok}
use tacos.Thread.Scheduler.{queue_count, Queues}
use tacos.Thread.Scheduler.Queues.{occurs, InRange-of_all}
use tacos.Thread.Scheduler.Pick.{Chosen, Scheduled, schedule_lem}
use tacos.Thread.State.{
  Kernel, is_running, is_ready, is_blocked, current_thread, priorities, assert-ok,
}
use tacos.Thread.Manager.{next_thread, schedule, can_go_on, next_has_stack}
use tacos.Thread.Manager.Switch.{Taken, ready_ne, next_ready, switch_to-Switched, ready_ne}
use tacos.Thread.Manager.Invariant.{Inv, IsTop, IsQueued, CanSchedule}

-- What a call of `schedule` has done: it has switched to a thread, or the current one goes on.
pub record Rescheduled (k after : Kernel) : Type 0 where
  pub inv : Inv after
  pub top : IsTop after
  pub same_priority : (t : ℕ) → priorities after t ≡ priorities k t
  pub status :
      (t : ℕ)
      → (is_running (k.threads t).status ≡ false)
      → (is_ready (k.threads t).status ≡ false)
      → (after.threads t).status ≡ (k.threads t).status
  pub awake :
      (t : ℕ) → is_ready (k.threads t).status ≡ true → is_blocked (after.threads t).status ≡ false
  pub waiting :
      (t : ℕ)
      → is_ready (k.threads t).status ≡ true
      → t ≢ after.current
      → (after.threads t).status ≡ (k.threads t).status
  pub donations : (t : ℕ) → (after.threads t).donationq ≡ (k.threads t).donationq
  pub sleepers : after.sleep_queue ≡ k.sleep_queue
  pub clock : after.ticks ≡ k.ticks
  pub stays_or_leaves :
      ((after.current ≡ k.current) × (after.intr ≡ k.intr))
      ⊎ ((is_ready (k.threads after.current).status ≡ true)
          × (after.intr ≡ (k.threads after.current).level))

next_thread_lem :
    (k : Kernel)
    → IsQueued k
    → (out : Option ℕ) × (qs : Queues) × (next_thread k ≡ (ok out, record k { queues = qs }))
      × Scheduled
          (priorities k)
          (current_thread k).priority
          (is_running (current_thread k).status)
          k.queues
          qs
          out
unfolding next_thread
next_thread_lem k v =
    let (out, qs, e, s) =
      schedule_lem (priorities k) (current_thread k).priority (is_running (current_thread k).status)
        k.queues v.queue_total (InRange-of_all (priorities k) k.queues v.in_range) in
    (out, qs, rw e refl, s)

abbrev Done : Kernel → Type 0
Done k = (after : Kernel) × (schedule k ≡ (ok tt, after)) × Rescheduled k after

module _ (k : Kernel) (c : CanSchedule k) where
  abbrev off : Kernel
  off = record k { intr = false }

  fine : next_has_stack k.current k ≡ true
  fine = ground (arith, c.table.stacks k.current)

  -- The current thread goes on.
  stay :
      (qs : Queues)
      → next_thread off ≡ (ok none, record off { queues = qs })
      → is_running (current_thread k).status ≡ true
      → ((u : ℕ) → occurs u qs ≡ occurs u k.queues)
      → length qs ≡ queue_count
      → ((u : ℕ) → 0 < occurs u k.queues → priorities k u ≤ (current_thread k).priority)
      → Done k
  unfolding schedule
  stay qs e go occ n top = (
    record k { queues = qs },
    bind-ok _ _ e (
        then-ok _ _ (assert-ok (can_go_on none) (record off { queues = qs }) (rw go)) (
          then-ok _ _
            (assert-ok (λ k. next_has_stack k.current k) (record off { queues = qs }) fine) refl)),
    record {
      inv = record {
        table = record {
          queue_total = n;
          queued = λ t. occ t ∙ c.table.queued t;
          in_range = c.table.in_range;
          stacks = c.table.stacks;
        };
        running = record { runs = go; alone = c.alone };
      };
      top = λ t h. ground (arith, top t, c.table.queued t);
      same_priority = λ t. refl;
      status = λ t a b. refl;
      awake = λ t h. ground arith;
      waiting = λ t h ne. refl;
      donations = λ t. refl;
      sleepers = refl;
      clock = refl;
      stays_or_leaves = inl (refl, refl);
    },
  )

  -- Another thread takes over.
  leave :
      (next : ℕ) (qs : Queues)
      → next_thread off ≡ (ok (some next), record off { queues = qs })
      → Chosen
          (priorities k)
          (current_thread k).priority
          (is_running (current_thread k).status)
          next
          k.queues
          qs
      → length qs ≡ queue_count
      → Done k
  unfolding schedule
  leave next qs e ch n =
      let mid : Kernel = record off { queues = qs } in
      let taken : Taken mid next = record {
        queue_total = n;
        queued = λ t. ch.taken t ∙ c.table.queued t;
        in_range = c.table.in_range;
        stacks = c.table.stacks;
        not_ready = c.not_ready;
        alone = c.alone;
        off = refl;
        highest = λ t h. ch.highest t (ground (arith, c.table.queued t));
        preempts = ch.preempts;
      } in
      let (after, runs, s) =
        switch_to-Switched k.intr next mid taken (current_thread k).status refl in
      (
        after,
        bind-ok _ _ e (
            then-ok _ _ (assert-ok (can_go_on (some next)) mid (ground arith))
              (then-ok _ _ (assert-ok (λ k. next_has_stack k.current k) mid fine) runs)),
        record {
          inv = s.inv;
          top = s.top;
          same_priority = s.same_priority;
          status =
              λ t a b. ground (arith, s.others t, s.previous, next_ready k.intr next mid taken);
          awake = λ t h. elim (Bool-cases (t == next)) [
            | inl e ↦
                let on_top : is_running (after.threads next).status ≡ true =
                  ap (λ u. is_running (after.threads u).status) (sym s.current)
                  ∙ s.inv.running.runs in
                ground arith
            | inr ne ↦ ground (arith, s.others t, ready_ne k h c.not_ready)
          ];
          waiting = λ t h ne. s.others t (λ e. ne (e ∙ sym s.current)) (ready_ne k h c.not_ready);
          donations = s.donations;
          sleepers = s.sleepers;
          clock = s.clock;
          stays_or_leaves =
              inr (rw s.current (next_ready k.intr next mid taken), rw s.current s.level);
        },
      )

  by_choice :
      (out : Option ℕ) (qs : Queues)
      → next_thread off ≡ (ok out, record off { queues = qs })
      → Scheduled
          (priorities k)
          (current_thread k).priority
          (is_running (current_thread k).status)
          k.queues
          qs
          out
      → Done k
  by_choice (some next) qs e s = leave next qs e s.choice s.queue_total
  by_choice none qs e s = elim s.choice [
    | inl idle ↦
        let empty : (t : ℕ) → is_ready (k.threads t).status ≡ true → ⊥ =
          λ t h. ground (arith, c.table.queued t, idle.all_gone t) in
        let go : is_running (current_thread k).status ≡ true = elim c.someone [
          | inl g ↦ g
          | inr (t, h) ↦ absurd (empty t h)
        ] in
        stay qs e go (λ u. idle.unchanged u ∙ sym (idle.all_gone u)) s.queue_total
          (λ u h. absurd (omega (arith, idle.all_gone u)))
    | inr keep ↦
        stay qs e keep.running keep.unchanged s.queue_total (λ u h. omega (arith, keep.lower u h))
  ]

  -- Where `schedule` is called with a thread that can run, it succeeds: afterwards the queues hold
  -- exactly the ready threads, exactly one thread runs, it is the current one, and no ready thread
  -- has a higher priority. No priority and no entry of a donation changes, nor the status of a thread
  -- that is blocked or dying, nor that of a ready thread but the one that runs next.
  -- Either the current thread goes on at its interrupt level, or a thread that was ready has taken
  -- over at the level that it restores. The sleep queue and the tick count stay as they are.
  pub schedule-Rescheduled : Done k
  schedule-Rescheduled =
      let table : IsQueued off = record {
        queue_total = c.table.queue_total;
        queued = c.table.queued;
        in_range = c.table.in_range;
        stacks = c.table.stacks;
      } in
      let (out, qs, e, s) = next_thread_lem off table in by_choice out qs e s
