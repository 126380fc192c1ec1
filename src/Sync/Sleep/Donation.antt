-- ===== src/Sync/Sleep/Donation.antt =====
-- What a donation does to the two threads, and to the scheduler.
use tacos.Prelude.{
  ℕ, ◌≤◌, ◌<◌, ◌≡◌, ◌≢◌, ◌∙◌, refl, Bool, true, false, ltb, ◌==◌, if◌then◌else◌, arith,
}
use tacos.Prelude.Deque.{push_back}
use tacos.Prelude.Outcome.{ok}
use tacos.Prelude.Run.{then-ok}
use tacos.Thread.Scheduler.{queue_count}
use tacos.Thread.State.{DonationData, Kernel, priorities}
use tacos.Thread.Manager.Invariant.{Inv}
use tacos.Thread.Manager.Reschedule.{Rescheduled, schedule-Rescheduled}
use tacos.Thread.Calls.Priority.{Inv-CanSchedule}
use tacos.Sync.Sleep.{give, donation_wrapped}

-- Two kernels with the same scheduler state: only priorities in range, donations and what was stored
-- of priorities may differ.
pub record SameRun (k after : Kernel) : Type 0 where
  pub queues : after.queues ≡ k.queues
  pub current : after.current ≡ k.current
  pub status : (t : ℕ) → (after.threads t).status ≡ (k.threads t).status
  pub stacks : (t : ℕ) → (after.threads t).stack_word ≡ (k.threads t).stack_word

pub SameRun-Inv :
    (k after : Kernel)
    → SameRun k after
    → ((t : ℕ) → priorities after t < queue_count)
    → Inv k
    → Inv after
SameRun-Inv k after s range v = record {
  table = record {
    queue_total = grind (arith, s.queues, v.table.queue_total);
    queued = λ t. grind (arith, s.queues, s.status t, v.table.queued t);
    in_range = range;
    stacks = λ t. grind (arith, s.stacks t, v.table.stacks t);
  };
  running = record {
    runs = grind (arith, s.current, s.status k.current, v.running.runs);
    alone = λ t e. grind (arith, s.current, s.status t, v.running.alone t);
  };
}

give-SameRun : (donner acceptor lockid : ℕ) (k : Kernel) → SameRun k (give donner acceptor lockid k)
unfolding give
give-SameRun donner acceptor lockid k = record {
  queues = refl;
  current = refl;
  status = λ t. ground arith;
  stacks = λ t. ground arith;
}

give-priorities :
    (donner acceptor lockid : ℕ) (k : Kernel) (t : ℕ)
    → priorities (give donner acceptor lockid k) t
      ≡ (if acceptor == t then priorities k donner else priorities k t)
unfolding give
give-priorities donner acceptor lockid k t = ground arith

-- The entry of a donation in the queue of the thread that gives, or of the one that takes it.
abbrev pub gift : Bool → ℕ → ℕ → ℕ → Kernel → DonationData
gift is_donner donner acceptor lockid k = record {
  donner = donner;
  acceptor = acceptor;
  donner_priority = priorities k donner;
  prev_priority = priorities k acceptor;
  is_donner = is_donner;
  lockid = lockid;
}

-- The acceptor has the donner's priority, and both threads an entry of the donation.
pub record Given (donner acceptor lockid : ℕ) (k after : Kernel) : Type 0 where
  pub raised : priorities after acceptor ≡ priorities k donner
  pub others : (t : ℕ) → t ≢ acceptor → priorities after t ≡ priorities k t
  pub by_donner :
      (after.threads donner).donationq
      ≡ push_back (k.threads donner).donationq (gift true donner acceptor lockid k)
  pub by_acceptor :
      (after.threads acceptor).donationq
      ≡ push_back (k.threads acceptor).donationq (gift false donner acceptor lockid k)
  pub queues :
      (t : ℕ) → t ≢ donner → t ≢ acceptor → (after.threads t).donationq ≡ (k.threads t).donationq

give-Given :
    (donner acceptor lockid : ℕ) (k : Kernel)
    → donner ≢ acceptor
    → Given donner acceptor lockid k (give donner acceptor lockid k)
unfolding give
give-Given donner acceptor lockid k ne = record {
  raised = ground arith;
  others = λ t h. ground arith;
  by_donner = ground arith;
  by_acceptor = ground arith;
  queues = λ t h h'. ground arith;
}

give-Inv : (donner acceptor lockid : ℕ) (k : Kernel) → Inv k → Inv (give donner acceptor lockid k)
give-Inv donner acceptor lockid k v =
    SameRun-Inv k (give donner acceptor lockid k) (give-SameRun donner acceptor lockid k)
      (λ t. grind (
        arith,
        give-priorities donner acceptor lockid k t,
        v.table.in_range t,
        v.table.in_range donner,
      ))
      v

-- Where a well-formed kernel has an acceptor of lower priority, `donation_wrapped` succeeds: the
-- acceptor gets the donner's priority, the others keep theirs, both threads have an entry of the
-- donation behind their others, no other thread gets one, and the scheduler has run: when it ends,
-- all this holds, the kernel is well formed and no ready thread, so nor a ready acceptor, exceeds the
-- thread that goes on.
pub donation_wrapped-Given :
    (donner acceptor lockid : ℕ) (k : Kernel)
    → Inv k
    → donner ≢ acceptor
    → priorities k acceptor < priorities k donner
    → (given after : Kernel) × (donation_wrapped donner acceptor lockid k ≡ (ok tt, after))
      × SameRun k given
      × Rescheduled given after
      × Given donner acceptor lockid k after
unfolding donation_wrapped
donation_wrapped-Given donner acceptor lockid k v ne lower =
    let given = give donner acceptor lockid k in
    let (after, runs, r) =
      schedule-Rescheduled given (Inv-CanSchedule given (give-Inv donner acceptor lockid k v)) in
    let test : ltb (priorities k acceptor) (priorities k donner) ≡ true = ground arith in
    let g = give-Given donner acceptor lockid k ne in
    let s = give-SameRun donner acceptor lockid k in
    (
      given,
      after,
      rw test (then-ok _ _ refl runs),
      s,
      r,
      record {
        raised = r.same_priority acceptor ∙ g.raised;
        others = λ t h. r.same_priority t ∙ g.others t h;
        by_donner = r.donations donner ∙ g.by_donner;
        by_acceptor = r.donations acceptor ∙ g.by_acceptor;
        queues = λ t h h'. r.donations t ∙ g.queues t h h';
      },
    )

-- A thread of no lower priority is given nothing.
pub donation_wrapped-none :
    (donner acceptor lockid : ℕ) (k : Kernel)
    → priorities k donner ≤ priorities k acceptor
    → donation_wrapped donner acceptor lockid k ≡ (ok tt, k)
unfolding donation_wrapped
donation_wrapped-none donner acceptor lockid k h =
    let test : ltb (priorities k acceptor) (priorities k donner) ≡ false = ground arith in
    rw test refl
