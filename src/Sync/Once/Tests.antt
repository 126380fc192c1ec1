-- ===== src/Sync/Once/Tests.antt =====
-- A cell whose function counts how often it runs.
use tacos.Prelude.{ℕ, ◌+◌, ◌≡◌, refl, true, none, some}
use tacos.Prelude.Outcome.{ok, Exec}
use tacos.Sync.Once.{get_or_init, get_lazy}
use tacos.Sync.Once.Laws.{vacant, filled, get_or_init-once, get_lazy-once}

abbrev counting : Exec ℕ ℕ
counting runs = (ok 7, runs + 1)

get_or_init-once_example :
    (get_or_init counting (vacant true none 0) ≡ (ok 7, filled true none 1 7))
    × ((g : Exec ℕ ℕ) → get_or_init g (filled true none 1 7) ≡ (ok 7, filled true none 1 7))
get_or_init-once_example = get_or_init-once true counting 0 1 7 refl

get_lazy-once_example :
    (get_lazy (vacant true (some counting) 0) ≡ (ok 7, filled true none 1 7))
    × (get_lazy (filled {T = ℕ} {E = ℕ} true none 1 7) ≡ (ok 7, filled true none 1 7))
get_lazy-once_example = get_lazy-once true counting 0 1 7 refl
