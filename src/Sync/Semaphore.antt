-- ===== src/Sync/Semaphore.antt =====
-- src/sync/sema.rs. A semaphore beside the kernel that its methods run in. A run of `down` or `up`
-- ends where the next thread goes on: `down` answers whether the caller has passed; a caller that
-- has not is blocked, and enters its loop again by `down_loop` when it is current again.
pub mod Max
pub mod Laws
mod Tests
use tacos.Prelude.{
  ◌≡◌, refl, ℕ, zero, suc, ◌+◌, ◌-◌, Bool, true, false, not, Option, none, some, List, [], ◌∷◌, leb,
  ltb, ◌==◌, if◌then◌else◌, length,
}
use tacos.Prelude.Deque.{push_front, is_empty}
use tacos.Prelude.Outcome.{Outcome, ok, panic, Exec}
use tacos.Prelude.Run.{◌>>=◌, ◌>>◌}
use tacos.Thread.State.{Kernel, current_thread, priorities}
use tacos.Thread.Manager.{schedule}
use tacos.Thread.Calls.{block, wake_up}

pub record World : Type 0 where
  pub value : ℕ
  pub waiters : List ℕ
  pub kernel : Kernel

-- A call of the thread interface from a method of the semaphore.
abbrev pub call : Exec Kernel Unit → Exec World Unit
call m w = let (r, k) = m w.kernel in (r, record w { kernel = k })

pub call-ok :
    (m : Exec Kernel Unit) (w : World) {k : Kernel}
    → m w.kernel ≡ (ok tt, k)
    → call m w ≡ (ok tt, record w { kernel = k })
call-ok m w e = rw e refl

abbrev pub set_level : Bool → World → World
set_level b w = record w { kernel = record w.kernel { intr = b } }

abbrev pub enqueue_current : World → World
enqueue_current w = record w { waiters = push_front w.waiters w.kernel.current }

-- The `while` loop of `down` and what follows it: `old` is the level that the call found.
pub down_loop : Bool → Exec World Bool
down_loop old w =
    if w.value == 0
    then ((λ w. (ok tt, enqueue_current w)) >> call block >> (λ w. (ok false, w))) w
    else (ok true, set_level old (record w { value = w.value - 1 }))

pub down : Exec World Bool
unfolding down_loop
down w = down_loop w.kernel.intr (set_level false w)

-- The loop of `get_maxpriority`: index, best index and best priority so far.
unfoldable pub max_from : (ℕ → ℕ) → List ℕ → ℕ → ℕ → ℕ → ℕ × ℕ
max_from priority [] i index best = (index, best)
max_from priority (t ∷ ts) i index best =
    let at_least = leb best (priority t) in
    max_from priority ts (i + 1) (if at_least then i else index)
      (if at_least then priority t else best)

unfoldable pub get_maxpriority : (ℕ → ℕ) → List ℕ → ℕ × ℕ
unfolding max_from
get_maxpriority priority ts = max_from priority ts 0 0 0

-- `VecDeque::remove`
unfoldable pub remove_at : List ℕ → ℕ → Option (ℕ × List ℕ)
remove_at [] i = none
remove_at (t ∷ ts) zero = some (t, ts)
remove_at (t ∷ ts) (suc i) = elim (remove_at ts i) [
  | none ↦ none
  | some (u, rest) ↦ some (u, t ∷ rest)
]

abbrev pub no_waiters : World → Bool
no_waiters w = is_empty w.waiters

-- The end of `up` after a waiter of priority `best` has been woken. In the first case the level has
-- been restored before the call of `schedule`, and is restored once more when the caller goes on.
pub preempt : Bool → ℕ → Exec World Unit
preempt old best w =
    if ltb (current_thread w.kernel).priority best
    then call schedule (set_level old w)
    else (ok tt, set_level old w)

-- The part of `up` under `if waitqlen != 0`. `count` is the value before the call.
pub wake_one : Bool → ℕ → Exec World Unit
unfolding preempt get_maxpriority remove_at
wake_one old count w =
    if count == 0
    then (if w.value == 0
        then (panic, w)
        else (let (index, best) = get_maxpriority (priorities w.kernel) w.waiters in
            elim (remove_at w.waiters index) [
              | none ↦ (panic, w)
              | some (t, rest) ↦
                  (call (wake_up t) >> preempt old best) (record w { waiters = rest })
            ]))
    else (panic, w)

pub up : Exec World Unit
unfolding wake_one
up w =
    let old = w.kernel.intr in
    let w1 = set_level false (record w { value = w.value + 1 }) in
    if no_waiters w then (ok tt, set_level old w1) else wake_one old w.value w1
