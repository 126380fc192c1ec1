-- ===== src/Sync/Sleep/Handover.antt =====
-- `release` of a lock and the rest of the `acquire` of a thread that has waited for it.
use tacos.Prelude.{
  ℕ, suc, ◌-◌, ◌≤◌, ◌≡◌, refl, ap, ◌∙◌, Bool, true, false, some, none, [], ◌∷◌, arith,
}
use tacos.Prelude.Outcome.{ok}
use tacos.Prelude.Run.{bind-ok}
use tacos.Thread.State.{is_ready}
use tacos.Sync.Semaphore.{World, down_loop}
use tacos.Sync.Semaphore.Laws.{SemaInv, Inv-level, Waits, down_loop-Waits, passed}
use tacos.Sync.Sleep.{Sleep, Job, step, run_jobs, release, is_current}
use tacos.Sync.Sleep.Release.{IsHeld, release-Released, on_inner-ok}
use tacos.Sync.Sleep.Acquire.{run_jobs-left, run_jobs-holds}

-- A waiter that is current where the value is zero is blocked once more, with the same left to do.
run_jobs-Waits :
    (fuel : ℕ) (old : Bool) (l : Sleep) (t : ℕ)
    → SemaInv l.inner
    → l.inner.value ≡ 0
    → is_ready (l.inner.kernel.threads t).status ≡ true
    → (w : World) × (run_jobs
          (suc fuel)
          l.inner.kernel.current
          (Job.wait_again old ∷ Job.hold ∷ [])
          l
        ≡ (ok (Job.wait_again old ∷ Job.hold ∷ []), record l { inner = w }))
      × Waits l.inner w
unfolding step
run_jobs-Waits fuel old l t v z ready =
    let (w, waits, x) = down_loop-Waits old l.inner t v z ready in
    let after : Sleep = record l { inner = w } in
    let caller = l.inner.kernel.current in
    let gone : is_current caller after ≡ false =
      grind (arith, x.successor, v.kernel.running.runs) in
    (
      w,
      run_jobs-left fuel caller (Job.wait_again old) (Job.hold ∷ []) (Job.wait_again old ∷ []) l
          after (bind-ok _ _ {s' = after} {a = false} (on_inner-ok (down_loop old) l waits) refl)
          gone,
      x,
    )

-- When the current thread releases a lock that it holds, on a well-formed kernel where every priority
-- that a thread can come back to is below 64, the thread that goes on, if it has waited in `acquire`
-- of the lock, ends that call with fuel 2 and holds the lock: the value of the semaphore is 0, its
-- state is well formed, and the interrupt level is the one that the call found. And as long as the
-- value is 0, in whatever well-formed state of the semaphore and the kernel, any thread that has waited
-- and becomes current while another is ready is blocked again with its call as it was, and the lock
-- stays with its holder.
pub release-handover :
    (fuel t : ℕ) (old level : Bool) (l : Sleep) (later : World)
    → IsHeld l
    → 2 ≤ fuel
    → SemaInv later
    → later.value ≡ 0
    → is_ready (later.kernel.threads t).status ≡ true
    → (mid taken : Sleep) × (again : World) × (release l ≡ (ok tt, mid))
      × (mid.holder ≡ none)
      × (run_jobs fuel mid.inner.kernel.current (Job.wait_again old ∷ Job.hold ∷ []) mid
          ≡ (ok [], taken))
      × (taken.holder ≡ some mid.inner.kernel.current)
      × (taken.lockid ≡ l.lockid)
      × (taken.inner.value ≡ 0)
      × (taken.inner.kernel.intr ≡ old)
      × SemaInv taken.inner
      × (run_jobs fuel later.kernel.current
            (Job.wait_again level ∷ Job.hold ∷ [])
            (record taken { inner = later })
          ≡ (ok (Job.wait_again level ∷ Job.hold ∷ []), record taken { inner = again }))
      × Waits later again
release-handover fuel t old level l later held enough sound zero_still ready =
    let (mid, releases, r) = release-Released l held in
    let caller = mid.inner.kernel.current in
    let taken : Sleep = record mid { inner = passed old mid.inner; holder = some caller } in
    let rest = fuel - 2 in
    let two : fuel ≡ suc (suc rest) = omega arith in
    let (again, waits, x) =
      run_jobs-Waits (suc rest) level (record taken { inner = later }) t sound zero_still ready in
    (
      mid,
      taken,
      again,
      releases,
      r.holder,
      ap (λ n. run_jobs n caller (Job.wait_again old ∷ Job.hold ∷ []) mid) two
          ∙ run_jobs-holds rest old mid (omega (arith, r.value)),
      refl,
      r.lockid,
      omega (arith, r.value),
      refl,
      record { kernel = Inv-level old mid.inner.kernel r.sema.kernel; waiting = r.sema.waiting },
      ap
            (λ n.
              run_jobs n later.kernel.current (Job.wait_again level ∷ Job.hold ∷ [])
                (record taken { inner = later }))
            two
          ∙ waits,
      x,
    )
