-- ===== src/Sync/Sleep/Release.antt =====
-- What `release` does to the scheduler, the semaphore and the priorities.
use tacos.Prelude.{
  ℕ, ◌+◌, ◌<◌, ◌≡◌, refl, sym, ap, ◌∙◌, true, false, Option, some, none, inl, inr, Bool-cases,
  arith, [],
}
use tacos.Prelude.Outcome.{ok, Exec}
use tacos.Prelude.Run.{then-ok, ◌>>◌}
use tacos.Thread.State.{DonationData, Thread, Kernel, priorities, current_thread}
use tacos.Thread.Manager.{schedule}
use tacos.Thread.Manager.Invariant.{Inv, IsTop}
use tacos.Thread.Manager.Reschedule.{schedule-Rescheduled}
use tacos.Thread.Calls.Priority.{Inv-CanSchedule}
use tacos.Sync.Semaphore.{World, up, no_waiters}
use tacos.Sync.Semaphore.Laws.{SemaInv, up-WokeOne, up-free}
use tacos.Sync.Sleep.{
  amend, with_donations, retain, find_donation, other_lock, with_setted, settle, settle_if, restore,
  delete_donation, Sleep, release, on_inner, is_current, reschedule_if, on_kernel, held_by_current,
}
use tacos.Sync.Sleep.Donation.{SameRun, SameRun-Inv}
use tacos.Sync.Sleep.Lenders.{AllLenders, restore-AllLenders}

settle-SameRun : (lockid : ℕ) (ret : DonationData) (k : Kernel) → SameRun k (settle lockid ret k)
unfolding settle
settle-SameRun lockid ret k = record {
  queues = refl;
  current = refl;
  status = λ t. ground arith;
  stacks = λ t. ground arith;
}

settle_if-SameRun :
    (lockid : ℕ) (ret : Option DonationData) (k : Kernel) → SameRun k (settle_if lockid ret k)
settle_if-SameRun lockid none k = record {
  queues = refl;
  current = refl;
  status = λ t. refl;
  stacks = λ t. refl;
}
settle_if-SameRun lockid (some ret) k = settle-SameRun lockid ret k

amend-SameRun :
    (u : ℕ) (f : Thread → Thread) (k : Kernel)
    → ((t : Thread) → (f t).status ≡ t.status)
    → ((t : Thread) → (f t).stack_word ≡ t.stack_word)
    → SameRun k (amend u f k)
amend-SameRun u f k status stacks = record {
  queues = refl;
  current = refl;
  status = λ t. ground (arith, status (k.threads u));
  stacks = λ t. ground (arith, stacks (k.threads u));
}

SameRun-trans : (a b c : Kernel) → SameRun a b → SameRun b c → SameRun a c
SameRun-trans a b c h h' = record {
  queues = h'.queues ∙ h.queues;
  current = h'.current ∙ h.current;
  status = λ t. h'.status t ∙ h.status t;
  stacks = λ t. h'.stacks t ∙ h.stacks t;
}

restore-SameRun : (lockid : ℕ) (k : Kernel) → SameRun k (restore lockid k)
unfolding restore
restore-SameRun lockid k =
    let k1 = (delete_donation k.current lockid k).1 in
    let found = find_donation lockid (current_thread k).donationq in
    let k2 = settle_if lockid found k1 in
    SameRun-trans k k1 (amend k2.current with_setted k2)
      (amend-SameRun k.current (with_donations (retain (other_lock lockid))) k (λ t. refl)
        (λ t. refl))
      (SameRun-trans k1 k2 (amend k2.current with_setted k2) (settle_if-SameRun lockid found k1)
        (amend-SameRun k2.current with_setted k2 (λ t. refl) (λ t. refl)))

restore-Inv : (lockid : ℕ) (k : Kernel) → Inv k → AllLenders k → Inv (restore lockid k)
restore-Inv lockid k v all =
    SameRun-Inv k (restore lockid k) (restore-SameRun lockid k)
      (λ t. (restore-AllLenders lockid k all t).in_range) v

-- A lock that the current thread holds: the value of its semaphore is 0.
pub record IsHeld (l : Sleep) : Type 0 where
  pub sema : SemaInv l.inner
  pub lenders : AllLenders l.inner.kernel
  pub holder : l.holder ≡ some l.inner.kernel.current
  pub value : l.inner.value ≡ 0

-- What `release` leaves: nobody holds the lock, the next `down` passes, and no ready thread exceeds
-- the thread that goes on.
pub record Released (l after : Sleep) : Type 0 where
  pub sema : SemaInv after.inner
  pub top : IsTop after.inner.kernel
  pub holder : after.holder ≡ none
  pub value : after.inner.value ≡ 1
  pub lockid : after.lockid ≡ l.lockid

pub on_inner-ok :
    {A : Type 0} (m : Exec World A) (l : Sleep) {a : A} {w : World}
    → m l.inner ≡ (ok a, w)
    → on_inner m l ≡ (ok a, record l { inner = w })
unfolding on_inner
on_inner-ok m l e = rw e refl

pub on_kernel-ok :
    (m : Exec Kernel Unit) (l : Sleep) {k : Kernel}
    → m l.inner.kernel ≡ (ok tt, k)
    → on_kernel m l ≡ (ok tt, record l { inner = record l.inner { kernel = k } })
on_kernel-ok m l e = rw e refl

-- The last statement of `release`, where the caller has not been switched away from.
reschedule_if-runs :
    (caller : ℕ) (l : Sleep)
    → SemaInv l.inner
    → is_current caller l ≡ true
    → (k : Kernel) × (reschedule_if caller l
        ≡ (ok tt, record l { inner = record l.inner { kernel = k } }))
      × SemaInv (record l.inner { kernel = k })
      × IsTop k
reschedule_if-runs caller l v here =
    let (k, runs, r) =
      schedule-Rescheduled l.inner.kernel (Inv-CanSchedule l.inner.kernel v.kernel) in
    (
      k,
      rw here (on_kernel-ok schedule l runs),
      record { kernel = r.inv; waiting = λ t. ground (arith, v.waiting t, r.status t) },
      r.top,
    )

reschedule_if-left :
    (caller : ℕ) (l : Sleep) → is_current caller l ≡ false → reschedule_if caller l ≡ (ok tt, l)
reschedule_if-left caller l gone = rw gone refl

-- `up` and the last statement, from the restored kernel on.
up-Released :
    (l : Sleep)
    → SemaInv l.inner
    → l.holder ≡ none
    → l.inner.value ≡ 0
    → (after : Sleep) × ((on_inner up >> reschedule_if l.inner.kernel.current) l ≡ (ok tt, after))
      × Released l after
up-Released l v free z =
    let caller = l.inner.kernel.current in
    elim (Bool-cases (no_waiters l.inner)) [
      | inl nobody ↦
          let empty : l.inner.waiters ≡ [] = ground arith in
          let raised : World = record l.inner { value = l.inner.value + 1 } in
          let mid : Sleep = record l { inner = raised } in
          let (k, runs, inv, top) =
            reschedule_if-runs caller mid (record { kernel = v.kernel; waiting = v.waiting })
              (ground arith) in
          (
            record mid { inner = record raised { kernel = k } },
            then-ok _ _ {s' = mid} (on_inner-ok up l (up-free l.inner empty)) runs,
            record {
              sema = inv;
              top = top;
              holder = free;
              value = omega (arith, z);
              lockid = refl;
            },
          )
      | inr someone ↦
          let (t, w, ups, woke) = up-WokeOne l.inner v z (ground arith) in
          let mid : Sleep = record l { inner = w } in
          let steps = on_inner-ok up l ups in
          elim (Bool-cases (is_current caller mid)) [
            | inl here ↦
                let (k, runs, inv, top) = reschedule_if-runs caller mid woke.inv here in
                (
                  record mid { inner = record w { kernel = k } },
                  then-ok _ _ {s' = mid} steps runs,
                  record {
                    sema = inv;
                    top = top;
                    holder = free;
                    value = woke.value;
                    lockid = refl;
                  },
                )
            | inr gone ↦
                let lower : (current_thread l.inner.kernel).priority < priorities l.inner.kernel t =
                  grind (arith, woke.stays, gone) in
                (
                  mid,
                  then-ok _ _ {s' = mid} steps (reschedule_if-left caller mid gone),
                  record {
                    sema = woke.inv;
                    top = woke.yields lower;
                    holder = free;
                    value = woke.value;
                    lockid = refl;
                  },
                )
          ]
    ]

-- `release` of a lock that the current thread holds succeeds, where the kernel is well formed and
-- every priority that a thread can come back to is below 64: nobody holds the lock then, the value of
-- its semaphore is 1, and no ready thread has a higher priority than the one that goes on.
pub release-Released :
    (l : Sleep) → IsHeld l → (after : Sleep) × (release l ≡ (ok tt, after)) × Released l after
unfolding release
release-Released l h =
    let k = restore l.lockid l.inner.kernel in
    let same = restore-SameRun l.lockid l.inner.kernel in
    let freed : Sleep = record l { inner = record l.inner { kernel = k }; holder = none } in
    let v : SemaInv freed.inner = record {
      kernel = restore-Inv l.lockid l.inner.kernel h.sema.kernel h.lenders;
      waiting = λ t. grind (arith, h.sema.waiting t, same.status t);
    } in
    let mine : held_by_current l ≡ true = ground (arith, h.holder) in
    let (after, runs, r) = up-Released freed v refl h.value in
    (
      after,
      rw mine (
          then-ok _ _ refl (
            then-ok _ _ refl
              (ap (λ c. (on_inner up >> reschedule_if c) freed) (sym same.current) ∙ runs))),
      record { sema = r.sema; top = r.top; holder = r.holder; value = r.value; lockid = r.lockid },
    )
