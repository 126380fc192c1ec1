-- ===== src/Thread/Scheduler.antt =====
-- src/thread/scheduler/priority.rs: 64 queues of thread ids, front first. `priority` reads the
-- priority that a thread has now, which may have changed since it was registered. The queues are
-- a Rust array of 64, so only an index that is a priority can be out of range, and panics.
pub mod Queues
pub mod Update
pub mod Pick
use tacos.Prelude.{
  ℕ, zero, suc, ◌+◌, Bool, true, false, Option, none, some, List, [], ◌∷◌, ◌++◌, ◌&&◌, get_or, set,
  ltb, ◌==◌, if◌then◌else◌, replicate,
}
use tacos.Prelude.Deque.{push_front, push_back, pop_back}
use tacos.Prelude.Outcome.{Outcome, ok, panic, Exec, pure, ◌>>=◌, ◌>>◌}

abbrev pub Queues : Type 0
Queues = List (List ℕ)

abbrev pub queue_count : ℕ
queue_count = 64

-- `Default`
abbrev pub empty_queues : Queues
empty_queues = replicate queue_count []

module _ (priority : ℕ → ℕ) where
  -- `self.0[thread.priority].push_front(thread)`
  unfoldable pub register : ℕ → Exec Queues Unit
  register t qs =
      if ltb (priority t) queue_count
      then (ok tt, set qs (priority t) (push_front (get_or qs (priority t) []) t))
      else (panic, qs)

  -- `self.0[newitem.priority].push_back(newitem)`
  pub requeue : ℕ → Exec Queues Unit
  requeue t qs =
      if ltb (priority t) queue_count
      then (ok tt, set qs (priority t) (push_back (get_or qs (priority t) []) t))
      else (panic, qs)

  -- The `while` loop of `update_priority` over the items of queue `i`. It never pushes to queue `i`
  -- itself, which is overwritten after the loop, so what is left of it is the list here.
  pub drain : ℕ → List ℕ → List ℕ → Exec Queues (List ℕ)
  drain i [] temp = pure temp
  drain i (t ∷ rest) temp = elim (priority t == i) [
    | true ↦ drain i rest (push_back temp t)
    | false ↦ requeue t >>= λ _. drain i rest temp
  ]

  -- One round of `update_priority`.
  pub update_queue : ℕ → Exec Queues Unit
  update_queue i qs = (drain i (get_or qs i []) [] >>= λ temp qs'. (ok tt, set qs' i temp)) qs

  -- `for i in 0..64`, by the rounds left.
  pub update_from : ℕ → ℕ → Exec Queues Unit
  update_from zero i = pure tt
  update_from (suc rounds) i = update_queue i >>= λ _. update_from rounds (i + 1)

  pub update_priority : Exec Queues Unit
  unfolding update_from update_queue drain requeue
  update_priority = update_from queue_count 0

  module _ (current_priority : ℕ) (current_running : Bool) where
    -- `for i in (0..64).rev()`, from the index below the given one down.
    pub pick : ℕ → Exec Queues (Option ℕ)
    pick zero qs = (ok none, qs)
    pick (suc i) qs = elim (pop_back (get_or qs i [])) [
      | none ↦ pick i qs
      | some (chosen, rest) ↦
          if ltb (priority chosen) current_priority && current_running
          then (ok none, set (set qs i rest) i (push_back rest chosen))
          else (ok (some chosen), set qs i rest)
    ]

    unfoldable pub schedule : Exec Queues (Option ℕ)
    unfolding update_priority pick
    schedule = update_priority >>= λ _. pick queue_count
