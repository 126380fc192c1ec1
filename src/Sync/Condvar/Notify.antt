-- ===== src/Sync/Condvar/Notify.antt =====
-- `notify_one` of condvar.rs wakes the thread of the highest priority.
use tacos.Prelude.{
  ℕ, ◌+◌, ◌≤◌, ◌<◌, ◌≡◌, refl, sym, ap, ◌∙◌, subst, true, false, some, none, List, [], ◌∷◌, length,
  get_or, arith,
}
use tacos.Prelude.Deque.{count}
use tacos.Prelude.Outcome.{Outcome, ok, Exec}
use tacos.Prelude.Run.{bind-ok}
use tacos.Thread.State.{priorities, current_thread, is_blocked, is_ready}
use tacos.Thread.Manager.Invariant.{Inv, IsTop}
use tacos.Sync.Semaphore.{World, get_maxpriority, remove_at, up, down}
use tacos.Sync.Semaphore.Laws.{SemaInv, up-WokeOne, down-Waits}
use tacos.Sync.Semaphore.Max.{
  IsOldestMax, get_maxpriority-IsOldestMax, remove_at_lem, count_pos-index,
}
use tacos.Sync.Condvar.{
  Condvar, world, put_world, on_sema, sema_priority, notify_one, Lock, Stage, wait_down, after_down,
}

module _ {G : Type 0} where
  -- The semaphore of a thread that waits at the condition: its value is 0, and the thread, which is
  -- blocked, is its only waiter.
  pub record IsWaiting (c : Condvar G) (s t : ℕ) : Type 0 where
    pub value : (c.semas s).value ≡ 0
    pub waiters : (c.semas s).waiters ≡ t ∷ []
    pub blocked : is_blocked (c.kernel.threads t).status ≡ true

  -- The kernel is well formed, and every semaphore in the queue is that of a thread that waits.
  pub record CondvarInv (c : Condvar G) : Type 0 where
    pub kernel : Inv c.kernel
    pub waiting : (s : ℕ) → 0 < count s c.queue → (t : ℕ) × IsWaiting c s t

  -- What `notify_one` has done: it has woken the thread `t` of the semaphore `s`.
  pub record Notified (s t : ℕ) (c after : Condvar G) : Type 0 where
    pub waited : 0 < count s c.queue
    pub waiter : IsWaiting c s t
    pub highest :
        (u v : ℕ)
        → 0 < count u c.queue
        → IsWaiting c u v
        → priorities c.kernel v ≤ priorities c.kernel t
    pub awake : is_blocked (after.kernel.threads t).status ≡ false
    pub value : (after.semas s).value ≡ 1
    pub removed : (u : ℕ) → count u after.queue + count u (s ∷ []) ≡ count u c.queue
    pub inv : Inv after.kernel
    pub yields : (current_thread c.kernel).priority < priorities c.kernel t → IsTop after.kernel

  sema_priority-alone :
      (c : Condvar G) (s t : ℕ) → IsWaiting c s t → sema_priority c s ≡ priorities c.kernel t
  sema_priority-alone c s t w =
      let m : IsOldestMax (priorities c.kernel) (t ∷ [])
          (get_maxpriority (priorities c.kernel) (t ∷ [])).0
          (get_maxpriority (priorities c.kernel) (t ∷ [])).1 =
        get_maxpriority-IsOldestMax (priorities c.kernel) (t ∷ []) (omega arith) in
      let first : (get_maxpriority (priorities c.kernel) (t ∷ [])).0 ≡ 0 =
        omega (arith, m.inside) in
      ap (λ l. (get_maxpriority (priorities c.kernel) l).1) w.waiters
      ∙ m.value
      ∙ ap (λ i. priorities c.kernel (get_or (t ∷ []) i 0)) first

  on_sema-ok :
      {A : Type 0} (s : ℕ) (m : Exec World A) (c : Condvar G) {a : A} {w : World}
      → m (world s c) ≡ (ok a, w)
      → on_sema s m c ≡ (ok a, put_world s w c)
  unfolding on_sema
  on_sema-ok s m c e = ap (λ r. (r.0, put_world s r.1 c)) e

  notify_one-takes :
      (c : Condvar G) (s : ℕ) (rest : List ℕ)
      → remove_at c.queue (get_maxpriority (sema_priority c) c.queue).0 ≡ some (s, rest)
      → notify_one c ≡ on_sema s up (record c { queue = rest })
  unfolding notify_one get_maxpriority
  notify_one-takes c s rest e =
      ap
        (λ o. elim o as (λ o. Outcome Unit × Condvar G) [
          | none ↦ (ok tt, c)
          | some (s, rest) ↦ on_sema s up (record c { queue = rest })
        ])
        e

  -- With threads that wait, `notify_one` succeeds and wakes one of them, of the highest priority among
  -- all that wait at the condition: it takes just its semaphore from the queue, whose value is 1 then,
  -- so that the thread passes it; the kernel stays well formed, and where the thread has a higher
  -- priority than the caller, no ready thread exceeds the one that goes on.
  pub notify_one-Notified :
      (c : Condvar G)
      → CondvarInv c
      → 0 < length c.queue
      → (s t : ℕ) × (after : Condvar G) × (notify_one c ≡ (ok tt, after)) × Notified s t c after
  notify_one-Notified c v some_there =
      let best = (get_maxpriority (sema_priority c) c.queue).1 in
      let index = (get_maxpriority (sema_priority c) c.queue).0 in
      let m : IsOldestMax (sema_priority c) c.queue index best =
        get_maxpriority-IsOldestMax (sema_priority c) c.queue some_there in
      let s = get_or c.queue index 0 in
      let (rest, takes, left) = remove_at_lem c.queue index m.inside in
      let here : 0 < count s c.queue = ground (arith, left s) in
      let (t, w) = v.waiting s here in
      let mid : Condvar G = record c { queue = rest } in
      let sema : SemaInv (world s mid) = record {
        kernel = v.kernel;
        waiting = λ u. ground (arith, w.waiters, w.blocked);
      } in
      let (t', after, ups, woke) =
        up-WokeOne (world s mid) sema w.value (ground (arith, w.waiters)) in
      let same : t' ≡ t = ground (arith, woke.waited, w.waiters) in
      (
        s,
        t,
        put_world s after mid,
        notify_one-takes c s rest takes ∙ on_sema-ok s up mid ups,
        record {
          waited = here;
          waiter = w;
          highest = λ u x h wait.
              let (j, lt, e) = count_pos-index u c.queue h in
              omega (
                arith,
                m.highest j lt,
                m.value,
                ap (sema_priority c) e,
                sema_priority-alone c u x wait,
                sema_priority-alone c s t w,
              );
          awake = subst (λ u. is_blocked (after.kernel.threads u).status ≡ false) same woke.awake;
          value = ground (arith, woke.value);
          removed = left;
          inv = woke.inv.kernel;
          yields = λ lt. woke.yields (
              subst (λ u. (current_thread c.kernel).priority < priorities c.kernel u) (sym same)
                lt);
        },
      )

module _ {G : Type 0} (lock : Lock G) where
  -- What `wait` leaves from the release of the guard on: the caller waits, blocked, at its semaphore.
  pub record Parked (s : ℕ) (c after : Condvar G) : Type 0 where
    pub waiting : IsWaiting after s c.kernel.current
    pub queue : after.queue ≡ c.queue
    pub guard : after.guard ≡ c.guard
    pub inv : Inv after.kernel
    pub top : IsTop after.kernel

  -- `wait` of a thread whose semaphore is new, once the guard has been released, on a well-formed kernel
  -- with a ready thread: the caller is blocked as the only waiter of its semaphore, a ready thread of
  -- the highest priority runs, and the call goes on in the loop of `down`.
  pub wait_down-Parked :
      (s t : ℕ) (c : Condvar G)
      → Inv c.kernel
      → c.semas s ≡ record { value = 0; waiters = [] }
      → is_ready (c.kernel.threads t).status ≡ true
      → (after : Condvar G) × (wait_down lock s c ≡ (ok (Stage.in_down s c.kernel.intr), after))
        × Parked s c after
  unfolding wait_down after_down
  wait_down-Parked s t c v new ready =
      let sema : SemaInv (world s c) = record { kernel = v; waiting = λ u. ground (arith, new) } in
      let (w, downs, x) = down-Waits (world s c) t sema (ap (λ a. a.value) new) ready in
      let after : Condvar G = put_world s w c in
      let alone : w.waiters ≡ c.kernel.current ∷ [] =
        x.waiters ∙ ap (λ a. c.kernel.current ∷ a.waiters) new in
      (
        after,
        bind-ok _ _ {s' = after} {a = false} (on_sema-ok s down c downs) refl,
        record {
          waiting = record {
            value = ground (arith, x.value);
            waiters = ground (arith, alone);
            blocked = x.blocked;
          };
          queue = refl;
          guard = refl;
          inv = x.inv.kernel;
          top = x.top;
        },
      )
