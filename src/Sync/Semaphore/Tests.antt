-- ===== src/Sync/Semaphore/Tests.antt =====
-- Runs of a semaphore on the sample kernel, with thread 3 waiting or with no thread waiting.
use tacos.Prelude.{ℕ, ◌+◌, ◌-◌, ◌≡◌, refl, [], ◌∷◌, arith, true}
use tacos.Prelude.Outcome.{ok}
use tacos.Thread.Sample.{sample, sample-Inv}
use tacos.Thread.State.{priorities}
use tacos.Sync.Semaphore.{World, down, up, get_maxpriority}
use tacos.Sync.Semaphore.Max.{IsOldestMax, get_maxpriority-IsOldestMax}
use tacos.Sync.Semaphore.Laws.{SemaInv, WokeOne, down-passes, up-free, up-WokeOne}

abbrev idle : ℕ → World
idle v = record { value = v; waiters = []; kernel = sample }

abbrev awaited : ℕ → World
awaited v = record { value = v; waiters = 3 ∷ []; kernel = sample }

idle-SemaInv : SemaInv (idle 0)
idle-SemaInv = record { kernel = sample-Inv; waiting = λ t. ground arith }

awaited-SemaInv : SemaInv (awaited 0)
awaited-SemaInv = record { kernel = sample-Inv; waiting = λ t. ground arith }

down-passes_example : down (idle 2) ≡ (ok true, record (idle 2) { value = 2 - 1 })
down-passes_example = down-passes (idle 2) (omega arith)

up-free_example : up (idle 2) ≡ (ok tt, record (idle 2) { value = 2 + 1 })
up-free_example = up-free (idle 2) refl

up-WokeOne_example :
    (t : ℕ) × (after : World) × (up (awaited 0) ≡ (ok tt, after)) × WokeOne t (awaited 0) after
up-WokeOne_example = up-WokeOne (awaited 0) awaited-SemaInv refl (ground arith)

get_maxpriority-IsOldestMax_example :
    IsOldestMax
      (priorities sample)
      (2 ∷ 3 ∷ 1 ∷ [])
      (get_maxpriority (priorities sample) (2 ∷ 3 ∷ 1 ∷ [])).0
      (get_maxpriority (priorities sample) (2 ∷ 3 ∷ 1 ∷ [])).1
get_maxpriority-IsOldestMax_example =
    get_maxpriority-IsOldestMax (priorities sample) (2 ∷ 3 ∷ 1 ∷ []) (omega arith)
