-- ===== src/Sync/Sleep/Tests.antt =====
-- A lock of number 7 on the sample kernel, whose current thread 0 has a donation on lock 9.
use tacos.Prelude.{
  ℕ, ◌<◌, ◌≡◌, refl, inl, inr, Bool-cases, true, false, some, none, [], ◌∷◌, arith, if◌then◌else◌,
  ◌==◌,
}
use tacos.Prelude.Outcome.{ok}
use tacos.Thread.Sample.{with_status, sample, sample-Inv}
use tacos.Thread.State.{Status, update, DonationData, Thread, Kernel}
use tacos.Thread.Manager.Invariant.{Inv}
use tacos.Thread.Manager.Reschedule.{Rescheduled}
use tacos.Sync.Semaphore.{World}
use tacos.Sync.Semaphore.Laws.{SemaInv, Waits}
use tacos.Sync.Sleep.Handover.{release-handover}
use tacos.Sync.Sleep.{
  Sleep, Job, amend, give, donation_wrapped, restore, release, acquire, run_jobs, with_donations,
}
use tacos.Sync.Sleep.Donation.{SameRun, Given, donation_wrapped-Given}
use tacos.Sync.Sleep.Lenders.{AllLenders, IsLender}
use tacos.Sync.Sleep.Release.{Released, release-Released}
use tacos.Sync.Sleep.Undo.{CanUndo, back, restore-give}
use tacos.Sync.Sleep.Acquire.{Blocked, acquire-Blocked}

abbrev older : DonationData
older = record {
  donner = 2;
  acceptor = 0;
  donner_priority = 31;
  prev_priority = 10;
  is_donner = false;
  lockid = 9;
}

abbrev lent : Kernel
lent = amend 0 (with_donations (λ q. older ∷ [])) sample

lent-Inv : Inv lent
lent-Inv = record {
  table = record {
    queue_total = sample-Inv.table.queue_total;
    queued = λ t. ground (arith, sample-Inv.table.queued t);
    in_range = λ t. ground (arith, sample-Inv.table.in_range t);
    stacks = λ t. ground (arith, sample-Inv.table.stacks t);
  };
  running = record { runs = refl; alone = λ t h. ground arith };
}

abbrev lock : ℕ → Sleep
lock holder = record {
  lockid = 7;
  holder = some holder;
  inner = record { value = 0; waiters = 3 ∷ []; kernel = lent };
}

lock-SemaInv : (holder : ℕ) → SemaInv ((lock holder).inner)
lock-SemaInv holder = record { kernel = lent-Inv; waiting = λ t. ground arith }

lent-CanUndo : CanUndo 3 7 lent
lent-CanUndo = record {
  apart = λ e. absurd (omega (arith, e));
  unset = refl;
  newer = omega arith;
  free = (refl, tt);
  donner_free = tt;
  no_donner = (refl, tt);
  no_acceptor = tt;
  below = (omega arith, tt);
}

donation_wrapped-Given_example :
    (given after : Kernel) × (donation_wrapped 0 1 7 lent ≡ (ok tt, after))
    × SameRun lent given
    × Rescheduled given after
    × Given 0 1 7 lent after
donation_wrapped-Given_example =
    donation_wrapped-Given 0 1 7 lent lent-Inv (λ e. absurd (omega (arith, e))) (omega arith)

restore-give_example :
    (restore 7 (give 3 0 7 lent)).threads 0 ≡ (if 0 == 0 then back 7 lent else lent.threads 0)
restore-give_example = restore-give 3 7 lent lent-CanUndo 0

acquire-Blocked_example :
    (after : Sleep) × (acquire 4 (lock 2) ≡ (ok (Job.wait_again true ∷ Job.hold ∷ []), after))
    × Blocked (lock 2) after
acquire-Blocked_example =
    acquire-Blocked 4 2 1 (lock 2) (lock-SemaInv 2) refl refl refl (omega arith) tt (omega arith)

fresh-IsLender : (s : Status) (p : ℕ) → p < 64 → IsLender (with_status s p)
fresh-IsLender s p h = record {
  in_range = h;
  donations = tt;
  stored = omega arith;
  setted = λ q e. absurd (grind (arith, e));
}

update-IsLender :
    (f : ℕ → Thread) (t : ℕ) (a : Thread)
    → IsLender a
    → ((u : ℕ) → IsLender (f u))
    → (u : ℕ) → IsLender (update f t a u)
update-IsLender f t a here all u = elim (Bool-cases (t == u)) [
  | inl this ↦ rw this here
  | inr other ↦ rw other (all u)
]

older-IsLender : IsLender (lent.threads 0)
older-IsLender = record {
  in_range = omega arith;
  donations = ((omega arith, omega arith), tt);
  stored = omega arith;
  setted = λ q e. absurd (grind (arith, e));
}

lent-AllLenders : AllLenders lent
lent-AllLenders =
    let none_there : ℕ → Thread = λ t. with_status Status.dying 0 in
    let zero_there = update none_there 0 (with_status Status.running 31) in
    let one_there = update zero_there 1 (with_status Status.ready 0) in
    let two_there = update one_there 2 (with_status Status.blocked 40) in
    update-IsLender sample.threads 0 (lent.threads 0) older-IsLender (
      update-IsLender two_there 3 (with_status Status.blocked 63)
        (fresh-IsLender Status.blocked 63 (omega arith))
        (update-IsLender one_there 2 (with_status Status.blocked 40)
          (fresh-IsLender Status.blocked 40 (omega arith))
          (update-IsLender zero_there 1 (with_status Status.ready 0)
            (fresh-IsLender Status.ready 0 (omega arith))
            (update-IsLender none_there 0 (with_status Status.running 31)
              (fresh-IsLender Status.running 31 (omega arith))
              (λ u. fresh-IsLender Status.dying 0 (omega arith))))))

release-Released_example :
    (after : Sleep) × (release (lock 0) ≡ (ok tt, after)) × Released (lock 0) after
release-Released_example =
    release-Released (lock 0)
      (record { sema = lock-SemaInv 0; lenders = lent-AllLenders; holder = refl; value = refl })

release-handover_example :
    (mid taken : Sleep) × (again : World) × (release (lock 0) ≡ (ok tt, mid))
    × (mid.holder ≡ none)
    × (run_jobs 2 mid.inner.kernel.current (Job.wait_again true ∷ Job.hold ∷ []) mid
        ≡ (ok [], taken))
    × (taken.holder ≡ some mid.inner.kernel.current)
    × (taken.lockid ≡ 7)
    × (taken.inner.value ≡ 0)
    × (taken.inner.kernel.intr ≡ true)
    × SemaInv taken.inner
    × (run_jobs 2 0 (Job.wait_again false ∷ Job.hold ∷ []) (record taken { inner = (lock 0).inner })
        ≡ (ok (Job.wait_again false ∷ Job.hold ∷ []), record taken { inner = again }))
    × Waits (lock 0).inner again
release-handover_example =
    release-handover 2 1 true false (lock 0) (lock 0).inner
      (record { sema = lock-SemaInv 0; lenders = lent-AllLenders; holder = refl; value = refl })
      (omega arith) (lock-SemaInv 0) refl refl
