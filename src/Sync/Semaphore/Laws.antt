-- ===== src/Sync/Semaphore/Laws.antt =====
-- What `down` and `up` of sema.rs do to the value, the waiters and the threads.
use tacos.Prelude.{
  ℕ, ◌+◌, ◌-◌, ◌≤◌, ◌<◌, ◌≡◌, ◌≢◌, refl, ap, ◌∙◌, Bool, true, false, [], ◌∷◌, length, get_or, ltb,
  if◌then◌else◌, ◌==◌, arith, inl, inr, Bool-cases,
}
use tacos.Prelude.Deque.{count, is_empty}
use tacos.Prelude.Outcome.{ok, panic}
use tacos.Prelude.Run.{then-ok}
use tacos.Thread.State.{Kernel, is_ready, is_blocked, current_thread, priorities}
use tacos.Thread.Manager.Invariant.{Inv, IsTop}
use tacos.Thread.Manager.Reschedule.{schedule-Rescheduled}
use tacos.Thread.Calls.{block, wake_up}
use tacos.Thread.Calls.Laws.{block-GivesUp, wake_up-Woken}
use tacos.Thread.Calls.Priority.{Inv-CanSchedule}
use tacos.Thread.Timer.Laws.{Inv-reset}
use tacos.Sync.Semaphore.{
  World, call-ok, set_level, enqueue_current, down, down_loop, get_maxpriority, no_waiters, preempt,
  wake_one, up,
}
use tacos.Sync.Semaphore.Max.{
  IsOldestMax, get_maxpriority-IsOldestMax, remove_at_lem, count_pos-index,
}

-- The kernel is well formed, and every waiter is blocked and waits once.
pub record SemaInv (w : World) : Type 0 where
  pub kernel : Inv w.kernel
  pub waiting :
      (t : ℕ) → count t w.waiters ≤ (if is_blocked (w.kernel.threads t).status then 1 else 0)

pub Inv-level : (b : Bool) (k : Kernel) → Inv k → Inv (record k { intr = b })
Inv-level b k v = Inv-reset k.sleep_queue k.ticks b k v

-- The semaphore after a thread has passed it, at the level that it found.
abbrev pub passed : Bool → World → World
passed old w = set_level old (record w { value = w.value - 1 })

pub down_loop-passes :
    (old : Bool) (w : World) → 0 < w.value → down_loop old w ≡ (ok true, passed old w)
unfolding down_loop
down_loop-passes old w h = let nonzero : (w.value == 0) ≡ false = ground arith in rw nonzero refl

-- At a positive value `down` passes: it takes one from the value and changes nothing else.
pub down-passes : (w : World) → 0 < w.value → down w ≡ (ok true, record w { value = w.value - 1 })
unfolding down
down-passes w h = let nonzero : (w.value == 0) ≡ false = ground arith in rw nonzero refl

-- What `down` leaves at value zero: the caller waits, blocked, behind no other, and another thread
-- runs.
pub record Waits (w after : World) : Type 0 where
  pub inv : SemaInv after
  pub top : IsTop after.kernel
  pub value : after.value ≡ 0
  pub waiters : after.waiters ≡ w.kernel.current ∷ w.waiters
  pub blocked : is_blocked (after.kernel.threads w.kernel.current).status ≡ true
  pub successor : is_ready (w.kernel.threads after.kernel.current).status ≡ true

-- At value zero, with a ready thread, the loop of `down` puts its caller in front of the waiters and
-- blocks it, and a ready thread of the highest priority runs.
pub down_loop-Waits :
    (old : Bool) (w : World) (t : ℕ)
    → SemaInv w
    → w.value ≡ 0
    → is_ready (w.kernel.threads t).status ≡ true
    → (after : World) × (down_loop old w ≡ (ok false, after)) × Waits w after
unfolding down_loop
down_loop-Waits old w t v z h =
    let start : World = enqueue_current w in
    let zero_now : (w.value == 0) ≡ true = ground arith in
    let (k, blocks, g) = block-GivesUp start.kernel t v.kernel h in
    let after : World = record start { kernel = k } in
    let me_free : is_blocked (w.kernel.threads w.kernel.current).status ≡ false =
      ground (arith, v.kernel.running.runs) in
    (
      after,
      rw zero_now (then-ok _ _ refl (then-ok _ _ (call-ok block start blocks) refl)),
      record {
        inv = record {
          kernel = g.inv;
          waiting = λ u. ground (arith, v.waiting u, me_free, g.keeps_status, g.still_blocked u);
        };
        top = g.top;
        value = z;
        waiters = refl;
        blocked = ap is_blocked g.keeps_status;
        successor = g.successor;
      },
    )

-- At value zero, with a ready thread, `down` does not pass: it puts the caller in front of the
-- waiters and blocks it, and a ready thread of the highest priority runs.
pub down-Waits :
    (w : World) (t : ℕ)
    → SemaInv w
    → w.value ≡ 0
    → is_ready (w.kernel.threads t).status ≡ true
    → (after : World) × (down w ≡ (ok false, after)) × Waits w after
unfolding down
down-Waits w t v z h =
    let start : World = set_level false w in
    let (after, runs, x) =
      down_loop-Waits w.kernel.intr start t
        (record { kernel = Inv-level false w.kernel v.kernel; waiting = v.waiting }) z h in
    (
      after,
      runs,
      record {
        inv = x.inv;
        top = x.top;
        value = x.value;
        waiters = x.waiters;
        blocked = x.blocked;
        successor = x.successor;
      },
    )

-- With no waiter `up` adds one to the value and changes nothing else.
pub up-free : (w : World) → w.waiters ≡ [] → up w ≡ (ok tt, record w { value = w.value + 1 })
unfolding up
up-free w e = let none_there : no_waiters w ≡ true = ap is_empty e in rw none_there refl

-- What `up` has done with a waiter at value zero: it has woken `t`.
pub record WokeOne (t : ℕ) (w after : World) : Type 0 where
  pub inv : SemaInv after
  pub value : after.value ≡ 1
  pub waited : 0 < count t w.waiters
  pub highest : (u : ℕ) → 0 < count u w.waiters → priorities w.kernel u ≤ priorities w.kernel t
  pub removed : (u : ℕ) → count u after.waiters + count u (t ∷ []) ≡ count u w.waiters
  pub awake : is_blocked (after.kernel.threads t).status ≡ false
  pub yields : (current_thread w.kernel).priority < priorities w.kernel t → IsTop after.kernel
  pub stays :
      priorities w.kernel t ≤ (current_thread w.kernel).priority
      → after.kernel.current ≡ w.kernel.current

-- The outcome of `preempt` after `t` has been woken in `mid`.
preempt_cases :
    (old : Bool) (best : ℕ) (mid : World)
    → Inv mid.kernel
    → (k : Kernel) × (preempt old best mid ≡ (ok tt, record mid { kernel = k }))
      × Inv k
      × ((t : ℕ)
          → is_blocked (mid.kernel.threads t).status ≡ true
          → is_blocked (k.threads t).status ≡ true)
      × ((t : ℕ)
          → is_ready (mid.kernel.threads t).status ≡ true
          → is_blocked (k.threads t).status ≡ false)
      × ((current_thread mid.kernel).priority < best → IsTop k)
      × (best ≤ (current_thread mid.kernel).priority → k.current ≡ mid.kernel.current)
unfolding preempt
preempt_cases old best mid v = elim (Bool-cases (ltb (current_thread mid.kernel).priority best)) [
  | inl lower ↦
      let start : Kernel = record mid.kernel { intr = old } in
      let inv : Inv start = Inv-level old mid.kernel v in
      let (k, runs, r) = schedule-Rescheduled start (Inv-CanSchedule start inv) in
      (
        k,
        rw (lower, runs) refl,
        r.inv,
        λ t h. ground (arith, r.status t),
        λ t h. r.awake t h,
        λ lt. r.top,
        λ le. absurd (ground arith),
      )
  | inr higher ↦ (
    record mid.kernel { intr = old },
    rw higher refl,
    Inv-level old mid.kernel v,
    λ t h. h,
    λ t h. ground arith,
    λ lt. absurd (ground arith),
    λ le. refl,
  )
]

-- At value zero with waiters, `up` succeeds. It wakes one waiter `t`, of the highest priority among
-- them, takes just that one from the waiters, and leaves the value at one. The kernel stays well
-- formed and the others keep waiting, blocked. If `t` has a higher priority than the caller, the
-- scheduler runs, and no ready thread exceeds the thread that goes on.
pub up-WokeOne :
    (w : World)
    → SemaInv w
    → w.value ≡ 0
    → w.waiters ≢ []
    → (t : ℕ) × (after : World) × (up w ≡ (ok tt, after)) × WokeOne t w after
unfolding up wake_one
up-WokeOne w v z ne =
    let ts = w.waiters in
    let pos : 0 < length ts = ground arith in
    let best = (get_maxpriority (priorities w.kernel) ts).1 in
    let index = (get_maxpriority (priorities w.kernel) ts).0 in
    let m : IsOldestMax (priorities w.kernel) ts index best =
      get_maxpriority-IsOldestMax (priorities w.kernel) ts pos in
    let t = get_or ts index 0 in
    let (rest, takes, left) = remove_at_lem ts index m.inside in
    let low : Kernel = record w.kernel { intr = false } in
    let waits : is_blocked (w.kernel.threads t).status ≡ true =
      ground (arith, v.waiting t, left t) in
    let (k, wakes, wk) = wake_up-Woken t low (Inv-level false w.kernel v.kernel) waits in
    let mid : World = record { value = w.value + 1; waiters = rest; kernel = k } in
    let (k', runs, inv, blocked, awake, yields, stays) =
      preempt_cases w.kernel.intr best mid wk.inv in
    let some_there : no_waiters w ≡ false = ground arith in
    let zero_now : (w.value == 0) ≡ true = ground arith in
    let one_now : (w.value + 1 == 0) ≡ false = ground arith in
    (
      t,
      record mid { kernel = k' },
      rw (some_there, zero_now, one_now, takes)
          (then-ok _ _ (call-ok (wake_up t) (record mid { kernel = low }) wakes) runs),
      record {
        inv = record {
          kernel = inv;
          waiting = λ u. ground (arith, v.waiting u, left u, blocked u, wk.status u);
        };
        value = omega arith;
        waited = ground (arith, left t);
        highest = λ u h.
            let (j, lt, e) = count_pos-index u ts h in
            omega (arith, m.highest j lt, m.value, ap (priorities w.kernel) e);
        removed = left;
        awake = awake t (ground (arith, wk.status t));
        yields =
            λ lt. yields (ground (arith, m.value, wk.same_priority w.kernel.current, wk.current));
        stays = λ le.
            stays (ground (arith, m.value, wk.same_priority w.kernel.current, wk.current))
            ∙ wk.current;
      },
    )

-- With waiters at a positive value, which a woken waiter that has not run yet leaves behind, `up`
-- fails its assertion on the old value, and the kernel panics.
up-panics :
    (w : World)
    → 0 < w.value
    → w.waiters ≢ []
    → up w ≡ (panic, set_level false (record w { value = w.value + 1 }))
unfolding up wake_one
up-panics w h ne =
    let some_there : no_waiters w ≡ false = ground arith in
    let nonzero : (w.value == 0) ≡ false = ground arith in rw (some_there, nonzero) refl
