-- ===== src/Sync/Condvar.antt =====
-- src/sync/condvar.rs: a queue of semaphores, one for each waiting thread, over the guard of a mutex
-- (src/sync/mutex.rs). The scheduler may switch away from a caller in a call of the lock or of a
-- semaphore; what is left of `wait` or of `notify_all` is then a value, which the caller goes on with
-- when it is current again.
pub mod Notify
mod Tests
use tacos.Prelude.{
  ℕ, zero, suc, ◌+◌, Bool, true, false, Option, none, some, List, [], ◌∷◌, ◌==◌, if◌then◌else◌,
}
use tacos.Prelude.Deque.{push_front}
use tacos.Prelude.Outcome.{Outcome, ok, panic, Exec, pure}
use tacos.Prelude.Run.{◌>>=◌, ◌>>◌}
use tacos.Thread.State.{Kernel, priorities}
use tacos.Sync.Semaphore.{World, down, down_loop, up, get_maxpriority, max_from, remove_at}

-- `Semaphore` behind an `Arc`.
pub record Sema : Type 0 where
  pub value : ℕ
  pub waiters : List ℕ

-- The trait `Lock` (src/sync.rs), of locks with the state `G`. A call answers whether the caller has
-- come to its end and is current.
pub record Lock (G : Type 0) : Type 0 where
  pub acquire : Exec (G × Kernel) Bool
  pub release : Exec (G × Kernel) Bool

-- A condition variable, with the semaphores that have been made, the lock of the guard, and the kernel.
pub record Condvar (G : Type 0) : Type 0 where
  pub semas : ℕ → Sema
  pub next : ℕ
  pub queue : List ℕ
  pub guard : G
  pub kernel : Kernel

module _ {G : Type 0} where
  abbrev pub world : ℕ → Condvar G → World
  world s c = record { value = (c.semas s).value; waiters = (c.semas s).waiters; kernel = c.kernel }

  abbrev pub put_world : ℕ → World → Condvar G → Condvar G
  put_world s w c = record c {
    semas = λ u. if s == u then record { value = w.value; waiters = w.waiters } else c.semas u;
    kernel = w.kernel;
  }

  -- A call of the semaphore `s`.
  unfoldable pub on_sema : {A : Type 0} → ℕ → Exec World A → Exec (Condvar G) A
  on_sema s m c = let (r, w) = m (world s c) in (r, put_world s w c)

  -- The second part of what `get_maxpriority` of a semaphore answers.
  abbrev pub sema_priority : Condvar G → ℕ → ℕ
  sema_priority c s = (get_maxpriority (priorities c.kernel) (c.semas s).waiters).1

  -- `notify_one`; its loop over the semaphores is that of `get_maxpriority` over the waiters of one.
  unfoldable pub notify_one : Exec (Condvar G) Unit
  notify_one c =
      let (chosen_index, best) = max_from (sema_priority c) c.queue 0 0 0 in
      elim (remove_at c.queue chosen_index) [
        | none ↦ (ok tt, c)
        | some (s, rest) ↦ on_sema s up (record c { queue = rest })
      ]

  -- The loop of `notify_all`, and the semaphores that are left where the caller has been switched away
  -- from.
  pub notify_each : ℕ → List ℕ → Exec (Condvar G) (List ℕ)
  notify_each caller [] = pure []
  notify_each caller (s ∷ ss) = on_sema s up >>= λ _ c.
      let goes_on = notify_each caller ss c in
      if c.kernel.current == caller then goes_on else (ok ss, c)

  abbrev pub clear_if_done : List ℕ → Exec (Condvar G) (List ℕ)
  clear_if_done [] c = (ok [], record c { queue = [] })
  clear_if_done (s ∷ ss) c = (ok (s ∷ ss), c)

  -- `notify_all`. The borrow of the queue that the loop of the source keeps across `up` is not a state
  -- here: a thread that takes the queue to change it while the caller is switched away from panics in
  -- the source.
  unfoldable pub notify_all : Exec (Condvar G) (List ℕ)
  unfolding notify_each
  notify_all c = (notify_each c.kernel.current c.queue >>= clear_if_done) c

  -- `guard.release()` and `guard.acquire()`
  abbrev pub on_guard : Exec (G × Kernel) Bool → Exec (Condvar G) Bool
  on_guard m c = let (r, (g, k)) = m (c.guard, c.kernel) in (r, record c { guard = g; kernel = k })

  -- `Semaphore::new(0)`, and its push to the front of the queue.
  abbrev pub enqueue_sema : Condvar G → Condvar G
  enqueue_sema c = record c {
    semas = λ u. if c.next == u then record { value = 0; waiters = [] } else c.semas u;
    next = suc c.next;
    queue = push_front c.queue c.next;
  }

-- What is left of a call of `wait`: the end of the guard's release, the loop of `down` of its
-- semaphore, the end of the guard's acquire, or nothing.
pub data Stage : Type 0 where
  in_release : ℕ → Stage
  in_down : ℕ → Bool → Stage
  in_acquire : Stage
  finished : Stage

abbrev pub end_stage : Bool → Stage
end_stage true = Stage.finished
end_stage false = Stage.in_acquire

module _ {G : Type 0} (lock : Lock G) where
  unfoldable pub take_back : Exec (Condvar G) Stage
  take_back = on_guard lock.acquire >>= λ ends. pure (end_stage ends)

  -- What follows `down`, or its loop.
  unfoldable pub after_down : ℕ → Bool → Bool → Exec (Condvar G) Stage
  after_down s old passes = elim passes as (λ b. Exec (Condvar G) Stage) [
    | true ↦ take_back
    | false ↦ pure (Stage.in_down s old)
  ]

  unfoldable pub wait_down : ℕ → Exec (Condvar G) Stage
  wait_down s c = (on_sema s down >>= after_down s c.kernel.intr) c

  unfoldable pub wait_again : ℕ → Bool → Exec (Condvar G) Stage
  wait_again s old = on_sema s (down_loop old) >>= after_down s old

  -- What follows the release of the guard.
  unfoldable pub after_release : ℕ → Bool → Exec (Condvar G) Stage
  after_release s ends = elim ends as (λ b. Exec (Condvar G) Stage) [
    | true ↦ wait_down s
    | false ↦ pure (Stage.in_release s)
  ]

  unfoldable pub wait : Exec (Condvar G) Stage
  wait c = (on_guard lock.release >>= after_release c.next) (enqueue_sema c)
