-- ===== src/Thread/Manager/Switch.antt =====
-- A switch of manager.rs: from the chosen thread to its first step.
use tacos.Prelude.{
  List, ℕ, ◌+◌, ◌≤◌, ◌<◌, ◌≡◌, ◌≢◌, refl, ap, ◌∙◌, Bool, true, false, [], ◌∷◌, length,
  if◌then◌else◌, ◌==◌, arith,
}
use tacos.Prelude.Deque.{count}
use tacos.Prelude.Outcome.{ok}
use tacos.Prelude.Run.{bind-ok, then-ok}
use tacos.Thread.Scheduler.{queue_count, Queues}
use tacos.Thread.Scheduler.Queues.{occurs, register_lem}
use tacos.Thread.State.{
  Status, Kernel, is_running, is_ready, stack_magic, current_thread, priorities, set_status,
  assert-ok,
}
use tacos.Thread.Manager.{
  enqueue, without, retire, schedule_tail, switch_to, hand_over, restore_level, activate,
  next_is_ready, next_has_stack, intr_off,
}
use tacos.Thread.Manager.Invariant.{Inv, IsTop}

-- `next` has been taken from the queues and is about to run.
pub record Taken (k : Kernel) (next : ℕ) : Type 0 where
  pub queue_total : length k.queues ≡ queue_count
  pub queued :
      (t : ℕ)
      → occurs t k.queues + count t (next ∷ []) ≡ (if is_ready (k.threads t).status then 1 else 0)
  pub in_range : (t : ℕ) → priorities k t < queue_count
  pub stacks : (t : ℕ) → (k.threads t).stack_word ≡ stack_magic
  pub not_ready : is_ready (current_thread k).status ≡ false
  pub alone : (t : ℕ) → is_running (k.threads t).status ≡ true → t ≡ k.current
  pub off : k.intr ≡ false
  pub highest : (t : ℕ) → is_ready (k.threads t).status ≡ true → priorities k t ≤ priorities k next
  pub preempts :
      is_running (current_thread k).status ≡ true → (current_thread k).priority ≤ priorities k next

-- After the switch `next` runs; the previous thread is ready again if it was running.
pub record Switched (k : Kernel) (next : ℕ) (after : Kernel) : Type 0 where
  pub inv : Inv after
  pub top : IsTop after
  pub current : after.current ≡ next
  pub same_priority : (t : ℕ) → priorities after t ≡ priorities k t
  pub previous :
      (after.threads k.current).status
      ≡ (if is_running (current_thread k).status then Status.ready else (current_thread k).status)
  pub others : (t : ℕ) → t ≢ next → t ≢ k.current → (after.threads t).status ≡ (k.threads t).status
  pub level : after.intr ≡ (k.threads next).level
  pub sleepers : after.sleep_queue ≡ k.sleep_queue
  pub clock : after.ticks ≡ k.ticks
  pub donations : (t : ℕ) → (after.threads t).donationq ≡ (k.threads t).donationq

pub ready_ne :
    (k : Kernel) {a b : ℕ}
    → is_ready (k.threads a).status ≡ true
    → is_ready (k.threads b).status ≡ false
    → a ≢ b
ready_ne k p q e = cc (ap (λ t. is_ready (k.threads t).status) e)

-- Registering a thread whose priority has a queue.
pub enqueue_lem :
    (t : ℕ) (k : Kernel)
    → length k.queues ≡ queue_count
    → priorities k t < queue_count
    → (qs : Queues) × (enqueue t k ≡ (ok tt, record k { queues = qs }))
      × (length qs ≡ queue_count)
      × ((u : ℕ) → occurs u qs ≡ occurs u k.queues + count u (t ∷ []))
unfolding enqueue
enqueue_lem t k n h =
    let (qs, e, len, occ) = register_lem (priorities k) t k.queues n h in (qs, rw e refl, len, occ)

module _ (old : Bool) (next : ℕ) (k : Kernel) (v : Taken k next) where
  pub next_ready : is_ready (k.threads next).status ≡ true
  next_ready = ground (arith, v.queued next)

  next_ne : (next == k.current) ≡ false
  next_ne = ground (arith, ready_ne k {a = next} {b = k.current} next_ready v.not_ready)

  kept_status : ((hand_over old next k).threads k.current).status ≡ (k.threads k.current).status
  kept_status = let self : (k.current == k.current) ≡ true = ground arith in rw (self, next_ne)

  tail-ok :
      (after : Kernel)
      → retire k.current (k.threads k.current).status (hand_over old next k) ≡ (ok tt, after)
      → schedule_tail k.current (hand_over old next k) ≡ (ok tt, activate after)
  unfolding schedule_tail
  tail-ok after e =
      let mid : Kernel = hand_over old next k in
      then-ok _ _ (assert-ok intr_off mid (rw v.off))
        (then-ok _ _ (ap (λ s. retire k.current s mid) kept_status ∙ e) refl)

  runs_to :
      (after : Kernel)
      → retire k.current (k.threads k.current).status (hand_over old next k) ≡ (ok tt, after)
      → switch_to old next k ≡ (ok tt, restore_level (activate after))
  unfolding switch_to
  runs_to after e =
      let fine : ((k.threads next).stack_word == stack_magic) ≡ true =
        ground (arith, v.stacks next) in
      then-ok _ _ (assert-ok (next_is_ready next) k next_ready) (
        then-ok _ _ (assert-ok (next_has_stack next) k (rw fine))
          (bind-ok _ _ refl (then-ok _ _ (tail-ok after e) refl)))

  -- A thread that cannot go on is left as it is.
  stopped-Switched :
      (all' : List ℕ)
      → is_running (current_thread k).status ≡ false
      → Switched k next (restore_level (activate (record (hand_over old next k) { all = all' })))
  stopped-Switched all' still = record {
    inv = record {
      table = record {
        queue_total = v.queue_total;
        queued = λ t. ground (arith, v.queued t, v.queued next, v.not_ready, next_ready);
        in_range = λ t. ground (arith, v.in_range t);
        stacks = λ t. ground (arith, v.stacks t);
      };
      running = record { runs = ground (arith, next_ne); alone = λ t h. ground (arith, v.alone t) };
    };
    top = λ t h. ground (arith, v.highest t);
    current = refl;
    same_priority = λ t. ground arith;
    previous = ground (arith, next_ne);
    others = λ t a b. ground arith;
    level = ground (arith, next_ne);
    sleepers = refl;
    clock = refl;
    donations = λ t. ground arith;
  }

  -- A running thread is ready again, and registered.
  running-Switched :
      (qs : Queues)
      → is_running (current_thread k).status ≡ true
      → length qs ≡ queue_count
      → ((u : ℕ) → occurs u qs ≡ occurs u k.queues + count u (k.current ∷ []))
      → Switched k next (
          restore_level (
            activate
              (record (set_status k.current Status.ready (hand_over old next k)) { queues = qs })))
  running-Switched qs go n occ = record {
    inv = record {
      table = record {
        queue_total = n;
        queued = λ t. ground (arith, occ t, v.queued t, v.queued next, v.not_ready, next_ready);
        in_range = λ t. ground (arith, v.in_range t);
        stacks = λ t. ground (arith, v.stacks t);
      };
      running = record { runs = ground (arith, next_ne); alone = λ t h. ground (arith, v.alone t) };
    };
    top = λ t h. ground (arith, v.highest t, v.preempts go, next_ne);
    current = refl;
    same_priority = λ t. ground arith;
    previous = ground (arith, next_ne);
    others = λ t a b. ground arith;
    level = ground (arith, next_ne);
    sleepers = refl;
    clock = refl;
    donations = λ t. ground arith;
  }

  -- The switch succeeds, whatever the status of the thread that leaves, unless it is ready.
  pub switch_to-Switched :
      (s : Status)
      → (current_thread k).status ≡ s
      → (after : Kernel) × (switch_to old next k ≡ (ok tt, after)) × Switched k next after
  unfolding retire
  switch_to-Switched Status.ready e = absurd (cc (ap is_ready e, v.not_ready))
  switch_to-Switched Status.running e =
      let mid : Kernel = set_status k.current Status.ready (hand_over old next k) in
      let (qs, adds, n, occ) =
        enqueue_lem k.current mid v.queue_total (ground (arith, v.in_range k.current)) in
      (
        restore_level (activate (record mid { queues = qs })),
        runs_to (record mid { queues = qs })
            (ap (λ s. retire k.current s (hand_over old next k)) e ∙ then-ok _ _ refl adds),
        running-Switched qs (ap is_running e) n occ,
      )
  switch_to-Switched Status.blocked e = (
    restore_level (activate (hand_over old next k)),
    runs_to (hand_over old next k) (ap (λ s. retire k.current s (hand_over old next k)) e),
    stopped-Switched k.all (ap is_running e),
  )
  switch_to-Switched Status.dying e = (
    restore_level (activate (record (hand_over old next k) { all = without k.current k.all })),
    runs_to (record (hand_over old next k) { all = without k.current k.all })
        (ap (λ s. retire k.current s (hand_over old next k)) e),
    stopped-Switched (without k.current k.all) (ap is_running e),
  )
