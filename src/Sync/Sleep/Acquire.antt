-- ===== src/Sync/Sleep/Acquire.antt =====
-- `acquire` of a lock that is free, and of one whose holder needs no donation.
use tacos.Prelude.{
  ℕ, zero, suc, ◌+◌, ◌-◌, ◌≤◌, ◌<◌, ◌≡◌, refl, ap, ◌∙◌, Bool, true, false, ◌&&◌, Option, some, none,
  All, ◌==◌, if◌then◌else◌, arith, List, ◌++◌, ◌∷◌, [], length,
}
use tacos.Prelude.Outcome.{ok}
use tacos.Prelude.Run.{bind-ok, then-ok}
use tacos.Thread.State.{DonationData, priorities, is_ready}
use tacos.Sync.Semaphore.{World, down, down_loop}
use tacos.Sync.Semaphore.Laws.{SemaInv, Waits, down-Waits, down-passes, down_loop-passes, passed}
use tacos.Sync.Sleep.{
  Sleep, Job, step, run_jobs, donation_jobs, acquire, other_lock, is_current, donation_wrapped,
}
use tacos.Sync.Sleep.Donation.{donation_wrapped-none}
use tacos.Sync.Sleep.Release.{on_inner-ok, on_kernel-ok}

-- A job after which the caller is still current.
run_jobs-next :
    (fuel caller : ℕ) (j : Job) (js more : List Job) (l mid : Sleep)
    → step j l ≡ (ok more, mid)
    → is_current caller mid ≡ true
    → run_jobs (suc fuel) caller (j ∷ js) l ≡ run_jobs fuel caller (more ++ js) mid
unfolding run_jobs
run_jobs-next fuel caller j js more l mid e here = bind-ok _ _ {s' = mid} {a = more} e (
    ap {A = Bool} (λ b. if b then run_jobs fuel caller (more ++ js) mid else (ok (more ++ js), mid))
      here)

-- A job that the scheduler switches away from the caller in.
pub run_jobs-left :
    (fuel caller : ℕ) (j : Job) (js more : List Job) (l mid : Sleep)
    → step j l ≡ (ok more, mid)
    → is_current caller mid ≡ false
    → run_jobs (suc fuel) caller (j ∷ js) l ≡ (ok (more ++ js), mid)
unfolding run_jobs
run_jobs-left fuel caller j js more l mid e gone = bind-ok _ _ {s' = mid} {a = more} e (
    ap {A = Bool} (λ b. if b then run_jobs fuel caller (more ++ js) mid else (ok (more ++ js), mid))
      gone)

step-wait_passes :
    (l : Sleep)
    → 0 < l.inner.value
    → step Job.wait l ≡ (ok [], record l { inner = record l.inner { value = l.inner.value - 1 } })
unfolding step
step-wait_passes l h =
    let after : Sleep = record l { inner = record l.inner { value = l.inner.value - 1 } } in
    bind-ok _ _ {s' = after} {a = true} (on_inner-ok down l (down-passes l.inner h)) refl

step-wait_stops :
    (l : Sleep) (w : World)
    → down l.inner ≡ (ok false, w)
    → step Job.wait l ≡ (ok (Job.wait_again l.inner.kernel.intr ∷ []), record l { inner = w })
unfolding step
step-wait_stops l w e =
    let after : Sleep = record l { inner = w } in
    bind-ok _ _ {s' = after} {a = false} (on_inner-ok down l e) refl

step-wait_again :
    (old : Bool) (l : Sleep)
    → 0 < l.inner.value
    → step (Job.wait_again old) l ≡ (ok [], record l { inner = passed old l.inner })
unfolding step
step-wait_again old l h =
    let after : Sleep = record l { inner = passed old l.inner } in
    bind-ok _ _ {s' = after} {a = true}
      (on_inner-ok (down_loop old) l (down_loop-passes old l.inner h)) refl

step-chain :
    (donner : ℕ) (l : Sleep)
    → step (Job.chain donner) l
      ≡ (ok (Job.links donner (l.inner.kernel.threads donner).donationq ∷ []), l)
unfolding step
step-chain donner l = refl

run_jobs-nil : (fuel caller : ℕ) (l : Sleep) → run_jobs fuel caller [] l ≡ (ok [], l)
unfolding run_jobs
run_jobs-nil fuel caller l = refl

-- No entry of the holder's queue says that it waits for another lock.
abbrev pub WaitsForNone : ℕ → List DonationData → Type 0
WaitsForNone lockid q = All (λ i. (i.is_donner && other_lock lockid i) ≡ false) q

step-offer_none :
    (donner acceptor : ℕ) (l : Sleep)
    → priorities l.inner.kernel donner ≤ priorities l.inner.kernel acceptor
    → step (Job.offer donner acceptor) l ≡ (ok [], l)
unfolding step
step-offer_none donner acceptor l h =
    then-ok _ _ {s' = l}
      (on_kernel-ok (donation_wrapped donner acceptor l.lockid) l
        (donation_wrapped-none donner acceptor l.lockid l.inner.kernel h))
      refl

step-links_skip :
    (donner : ℕ) (i : DonationData) (is : List DonationData) (l : Sleep)
    → (i.is_donner && other_lock l.lockid i) ≡ false
    → step (Job.links donner (i ∷ is)) l ≡ (ok (Job.links donner is ∷ []), l)
unfolding step
step-links_skip donner i is l h = rw h refl

-- The loop of `find_and_donate` over such a queue.
run_jobs-links :
    (fuel rest caller donner : ℕ) (q : List DonationData) (js : List Job) (l : Sleep)
    → fuel ≡ suc (length q) + rest
    → WaitsForNone l.lockid q
    → is_current caller l ≡ true
    → run_jobs fuel caller (Job.links donner q ∷ js) l ≡ run_jobs rest caller js l
unfolding step
run_jobs-links zero rest caller donner q js l e h here = absurd (omega arith)
run_jobs-links (suc fuel) rest caller donner [] js l e h here =
    run_jobs-next fuel caller (Job.links donner []) js [] l l refl here
    ∙ ap (λ n. run_jobs n caller js l) (omega arith)
run_jobs-links (suc fuel) rest caller donner (i ∷ is) js l e h here =
    run_jobs-next fuel caller (Job.links donner (i ∷ is)) js (Job.links donner is ∷ []) l l
      (step-links_skip donner i is l h.0) here
    ∙ run_jobs-links fuel rest caller donner is js l (omega arith) h.1 here

-- A caller that is current where the value is positive passes the semaphore and holds the lock, also
-- where it goes on after it has waited.
pub run_jobs-holds :
    (fuel : ℕ) (old : Bool) (l : Sleep)
    → 0 < l.inner.value
    → let caller = l.inner.kernel.current in
      run_jobs (suc (suc fuel)) caller (Job.wait_again old ∷ Job.hold ∷ []) l
      ≡ (ok [], record l { inner = passed old l.inner; holder = some caller })
unfolding step run_jobs
run_jobs-holds fuel old l h =
    let caller = l.inner.kernel.current in
    let mid : Sleep = record l { inner = passed old l.inner } in
    let end : Sleep = record mid { holder = some caller } in
    let here : (caller == caller) ≡ true = ground arith in
    run_jobs-next (suc fuel) caller (Job.wait_again old) (Job.hold ∷ []) [] l mid
      (step-wait_again old l h) here
    ∙ run_jobs-next fuel caller Job.hold [] [] mid end refl here
    ∙ run_jobs-nil fuel caller end

-- What `acquire` of a lock that is held leaves, where the caller has been blocked: the caller waits at
-- the semaphore, and takes the lock when it is current again.
pub record Blocked (l after : Sleep) : Type 0 where
  pub waits : Waits l.inner after.inner
  pub holder : after.holder ≡ l.holder
  pub lockid : after.lockid ≡ l.lockid

-- `acquire` of a held lock whose holder has a priority no lower than the caller's and waits for no
-- other lock: with fuel for each donation in the holder's queue and four jobs more, the caller is
-- blocked at the semaphore, and all that is left of the call is to pass it and to take the lock.
pub acquire-Blocked :
    (fuel a t : ℕ) (l : Sleep)
    → SemaInv l.inner
    → l.holder ≡ some a
    → l.inner.value ≡ 0
    → is_ready (l.inner.kernel.threads t).status ≡ true
    → priorities l.inner.kernel l.inner.kernel.current ≤ priorities l.inner.kernel a
    → WaitsForNone l.lockid (l.inner.kernel.threads a).donationq
    → length (l.inner.kernel.threads a).donationq + 4 ≤ fuel
    → (after : Sleep) × (acquire fuel l
        ≡ (ok (Job.wait_again l.inner.kernel.intr ∷ Job.hold ∷ []), after))
      × Blocked l after
unfolding acquire
acquire-Blocked zero a t l v held z ready high idle enough = absurd (omega arith)
acquire-Blocked (suc zero) a t l v held z ready high idle enough = absurd (omega arith)
acquire-Blocked (suc (suc fuel)) a t l v held z ready high idle enough =
    let caller = l.inner.kernel.current in
    let q = (l.inner.kernel.threads a).donationq in
    let last : List Job = Job.wait ∷ Job.hold ∷ [] in
    let here : is_current caller l ≡ true = ground arith in
    let rest : ℕ = fuel - (length q + 2) in
    let (w, downs, x) = down-Waits l.inner t v z ready in
    let after : Sleep = record l { inner = w } in
    let gone : is_current caller after ≡ false =
      grind (arith, x.successor, v.kernel.running.runs) in
    (
      after,
      ap {A = Option ℕ} (λ o. run_jobs (suc (suc fuel)) caller (donation_jobs caller o ++ last) l)
            held
          ∙ run_jobs-next (suc fuel) caller (Job.offer caller a) (Job.chain a ∷ last) [] l l
              (step-offer_none caller a l high) here
          ∙ run_jobs-next fuel caller (Job.chain a) last (Job.links a q ∷ []) l l (step-chain a l)
              here
          ∙ run_jobs-links fuel (suc rest) caller a q last l (omega arith) idle here
          ∙ run_jobs-left rest caller Job.wait (Job.hold ∷ [])
              (Job.wait_again l.inner.kernel.intr ∷ []) l after (step-wait_stops l w downs) gone,
      record { waits = x; holder = refl; lockid = refl },
    )

-- `acquire` of a lock that nobody holds takes it, and changes nothing else than the value.
acquire-free :
    (fuel : ℕ) (l : Sleep)
    → l.holder ≡ none
    → 0 < l.inner.value
    → acquire (suc (suc fuel)) l ≡ (
      ok [],
      record l {
        inner = record l.inner { value = l.inner.value - 1 };
        holder = some l.inner.kernel.current;
      },
    )
unfolding acquire step
acquire-free fuel l free h =
    let caller = l.inner.kernel.current in
    let last : List Job = Job.wait ∷ Job.hold ∷ [] in
    let here : (caller == caller) ≡ true = ground arith in
    let mid : Sleep = record l { inner = record l.inner { value = l.inner.value - 1 } } in
    let end : Sleep = record mid { holder = some caller } in
    ap {A = Option ℕ} (λ o. run_jobs (suc (suc fuel)) caller (donation_jobs caller o ++ last) l)
      free
    ∙ run_jobs-next (suc fuel) caller Job.wait (Job.hold ∷ []) [] l mid (step-wait_passes l h) here
    ∙ run_jobs-next fuel caller Job.hold [] [] mid end refl here
    ∙ run_jobs-nil fuel caller end
