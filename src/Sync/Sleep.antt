-- ===== src/Sync/Sleep.antt =====
-- src/sync/sleep.rs: a lock over a semaphore, whose waiters donate their priority to its holder, with
-- the donation records that src/thread/imp.rs keeps for each thread. The scheduler may switch away from
-- the caller in the middle of `acquire`; what is left of the call is then a list of jobs, which the
-- caller goes on with when it is current again.
pub mod Donation
pub mod Lenders
pub mod Release
pub mod Settling
pub mod Undo
pub mod Acquire
pub mod Handover
mod Tests
use tacos.Prelude.{
  ◌+◌, ℕ, zero, suc, Bool, true, false, not, ◌&&◌, Option, none, some, List, [], ◌∷◌, ◌++◌, max,
  ltb, ◌==◌, if◌then◌else◌,
}
use tacos.Prelude.Deque.{push_back}
use tacos.Prelude.Outcome.{Outcome, ok, panic, Exec, pure, crash}
use tacos.Prelude.Run.{◌>>=◌, ◌>>◌}
use tacos.Thread.State.{
  DonationData, Thread, Kernel, current_thread, priorities, set_priority_of, update, modify,
}
use tacos.Thread.Manager.{schedule}
use tacos.Sync.Semaphore.{World, down, down_loop, up, call}

-- The mutable fields of a thread, behind its `Arc`.
abbrev pub amend : ℕ → (Thread → Thread) → Kernel → Kernel
amend t f k = record k { threads = update k.threads t (f (k.threads t)) }

abbrev pub with_donations : (List DonationData → List DonationData) → Thread → Thread
with_donations f t = record t { donationq = f t.donationq }

-- `Thread::add_donation`
abbrev pub add_donation : ℕ → DonationData → Kernel → Kernel
add_donation t item k = amend t (with_donations (λ q. push_back q item)) k

-- `Iterator::find` and `VecDeque::retain`
pub find_donation : ℕ → List DonationData → Option DonationData
find_donation lockid [] = none
find_donation lockid (x ∷ xs) =
    let later = find_donation lockid xs in if x.lockid == lockid then some x else later

pub retain : (DonationData → Bool) → List DonationData → List DonationData
retain test [] = []
retain test (x ∷ xs) = let rest = retain test xs in if test x then x ∷ rest else rest

abbrev pub other_lock : ℕ → DonationData → Bool
other_lock lockid x = not (x.lockid == lockid)

abbrev pub other_donner : ℕ → DonationData → Bool
other_donner t x = not (x.donner == t)

abbrev pub other_acceptor : ℕ → DonationData → Bool
other_acceptor t x = not (x.acceptor == t)

-- `Thread::delete_donation`
abbrev pub delete_donation : ℕ → ℕ → Kernel → Option DonationData × Kernel
delete_donation t lockid k = (
  find_donation lockid (k.threads t).donationq,
  amend t (with_donations (retain (other_lock lockid))) k,
)

-- The donation of `donation_wrapped`, with `Thread::donate`, up to the call of the scheduler.
unfoldable pub give : ℕ → ℕ → ℕ → Kernel → Kernel
give donner acceptor lockid k =
    let current_priority = priorities k donner in
    let current_dd : DonationData = record {
      donner = donner;
      acceptor = acceptor;
      donner_priority = current_priority;
      prev_priority = priorities k acceptor;
      is_donner = true;
      lockid = lockid;
    } in
    add_donation acceptor (record current_dd { is_donner = false })
      (add_donation donner current_dd (set_priority_of acceptor current_priority k))

unfoldable pub donation_wrapped : ℕ → ℕ → ℕ → Exec Kernel Unit
donation_wrapped donner acceptor lockid k =
    if ltb (priorities k acceptor) (priorities k donner)
    then (modify (give donner acceptor lockid) >> schedule) k
    else (ok tt, k)

-- The loop of `release` over the donations that are left.
pub highest_donation : ℕ → List DonationData → ℕ
highest_donation final [] = final
highest_donation final (x ∷ xs) = highest_donation (max final x.donner_priority) xs

-- `stored_prev` after a release of the lock.
abbrev pub stored_after : ℕ → ℕ → ℕ × ℕ → ℕ × ℕ
stored_after lockid prev stored = if ltb lockid stored.0 then (lockid, prev) else stored

abbrev pub with_stored : ℕ → ℕ → Thread → Thread
with_stored lockid prev t = record t { stored_prev = stored_after lockid prev t.stored_prev }

-- The part of `release` under `if let Some(ret)`.
unfoldable pub settle : ℕ → DonationData → Kernel → Kernel
settle lockid ret k =
    let k1 = (delete_donation ret.donner lockid k).1 in
    let k2 = amend k1.current (with_donations (retain (other_donner ret.donner))) k1 in
    let k3 = amend ret.donner (with_donations (retain (other_acceptor k.current))) k2 in
    let k4 = amend k3.current (with_stored lockid ret.prev_priority) k3 in
    let t = current_thread k4 in
    set_priority_of k4.current (highest_donation t.stored_prev.1 t.donationq) k4

abbrev pub settle_if : ℕ → Option DonationData → Kernel → Kernel
settle_if lockid none k = k
settle_if lockid (some ret) k = settle lockid ret k

-- A priority that has been set overrides what was restored.
abbrev pub set_or : ℕ → Option ℕ → ℕ
set_or restored none = restored
set_or restored (some setted) = setted

abbrev pub with_setted : Thread → Thread
with_setted t = record t { priority = set_or t.priority t.priority_setted }

-- What `release` does to the donations and the priority of the current thread.
unfoldable pub restore : ℕ → Kernel → Kernel
unfolding settle
restore lockid k =
    let (ret, k1) = delete_donation k.current lockid k in
    let k2 = settle_if lockid ret k1 in amend k2.current with_setted k2

-- A lock, with its semaphore beside the kernel.
pub record Sleep : Type 0 where
  pub lockid : ℕ
  pub holder : Option ℕ
  pub inner : World

-- `Sleep::default`: the number of a lock is that of the counter after the addition.
abbrev pub default_lock : ℕ → Kernel → ℕ × Sleep
default_lock counter k = (
  counter + 1,
  record {
    lockid = counter + 1;
    holder = none;
    inner = record { value = 1; waiters = []; kernel = k };
  },
)

abbrev pub on_kernel : Exec Kernel Unit → Exec Sleep Unit
on_kernel m l = let (r, w) = call m l.inner in (r, record l { inner = w })

pub on_inner : {A : Type 0} → Exec World A → Exec Sleep A
on_inner m l = let (r, w) = m l.inner in (r, record l { inner = w })

abbrev pub is_current : ℕ → Sleep → Bool
is_current t l = l.inner.kernel.current == t

-- `assert!(Arc::ptr_eq(holder, current))`, with the `unwrap` of the holder.
abbrev pub held_by_current : Sleep → Bool
held_by_current l = elim l.holder [ none ↦ false | some t ↦ is_current t l ]

-- A thread that `up` has switched away from runs the rest of `release` when it is current again.
abbrev pub reschedule_if : ℕ → Exec Sleep Unit
reschedule_if caller l = if is_current caller l then on_kernel schedule l else (ok tt, l)

unfoldable pub release : Exec Sleep Unit
unfolding restore on_inner
release l =
    let caller = l.inner.kernel.current in
    if held_by_current l
    then (on_kernel (modify (restore l.lockid))
          >> (λ l. (ok tt, record l { holder = none }))
          >> on_inner up
          >> reschedule_if caller)
        l
    else (panic, l)

-- What is left of a call of `acquire`: a donation, the loop of `find_and_donate`, `down`, its loop
-- after the caller has been woken, and the last statement.
pub data Job : Type 0 where
  offer : ℕ → ℕ → Job
  chain : ℕ → Job
  links : ℕ → List DonationData → Job
  wait hold : Job
  wait_again : Bool → Job

abbrev pub wait_jobs : Bool → Bool → List Job
wait_jobs old true = []
wait_jobs old false = Job.wait_again old ∷ []

-- One job, and the jobs that come in its place.
pub step : Job → Exec Sleep (List Job)
unfolding donation_wrapped on_inner
step (Job.offer donner acceptor) l =
    (on_kernel (donation_wrapped donner acceptor l.lockid) >> pure []) l
step (Job.chain donner) l =
    (ok (Job.links donner (l.inner.kernel.threads donner).donationq ∷ []), l)
step (Job.links donner []) l = (ok [], l)
step (Job.links donner (i ∷ is)) l =
    if i.is_donner && other_lock l.lockid i
    then (ok (Job.offer donner i.acceptor ∷ Job.chain i.acceptor ∷ Job.links donner is ∷ []), l)
    else (ok (Job.links donner is ∷ []), l)
step Job.wait l =
    let old = l.inner.kernel.intr in (on_inner down >>= λ passes. pure (wait_jobs old passes)) l
step (Job.wait_again old) l = (on_inner (down_loop old) >>= λ passes. pure (wait_jobs old passes)) l
step Job.hold l = (ok [], record l { holder = some l.inner.kernel.current })

-- The jobs that a caller does while it is current, and those that are left.
pub run_jobs : ℕ → ℕ → List Job → Exec Sleep (List Job)
run_jobs fuel caller [] = pure []
run_jobs zero caller (j ∷ js) = pure (j ∷ js)
run_jobs (suc fuel) caller (j ∷ js) = step j >>= λ more l.
    let goes_on = run_jobs fuel caller (more ++ js) l in
    if is_current caller l then goes_on else (ok (more ++ js), l)

-- `acquire`
abbrev pub donation_jobs : ℕ → Option ℕ → List Job
donation_jobs caller none = []
donation_jobs caller (some acceptor) = Job.offer caller acceptor ∷ Job.chain acceptor ∷ []

unfoldable pub acquire : ℕ → Exec Sleep (List Job)
unfolding run_jobs step
acquire fuel l =
    let caller = l.inner.kernel.current in
    run_jobs fuel caller (donation_jobs caller l.holder ++ (Job.wait ∷ Job.hold ∷ [])) l
