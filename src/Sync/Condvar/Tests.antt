-- ===== src/Sync/Condvar/Tests.antt =====
-- A condition variable on the sample kernel, with the blocked threads 2 and 3 waiting, or nobody.
use tacos.Prelude.{ℕ, ◌≡◌, refl, true, [], ◌∷◌, ◌==◌, if◌then◌else◌, arith, inl, inr, Bool-cases}
use tacos.Prelude.Outcome.{ok, pure}
use tacos.Thread.Sample.{sample, sample-Inv}
use tacos.Sync.Condvar.{Condvar, Lock, Stage, notify_one, wait_down}
use tacos.Sync.Condvar.Notify.{CondvarInv, Notified, Parked, notify_one-Notified, wait_down-Parked}

-- A lock without a state, which never waits.
abbrev free_lock : Lock Unit
free_lock = record { acquire = pure true; release = pure true }

abbrev waiting : Condvar Unit
waiting = record {
  semas = λ s. record { value = 0; waiters = (if s == 5 then 2 else 3) ∷ [] };
  next = 7;
  queue = 6 ∷ 5 ∷ [];
  guard = tt;
  kernel = sample;
}

waiting-CondvarInv : CondvarInv waiting
waiting-CondvarInv = record {
  kernel = sample-Inv;
  waiting = λ s h. elim (Bool-cases (s == 5)) [
    | inl five ↦ (2, record { value = refl; waiters = rw five refl; blocked = refl })
    | inr other ↦ (3, record { value = refl; waiters = rw other refl; blocked = refl })
  ];
}

abbrev idle : Condvar Unit
idle = record {
  semas = λ s. record { value = 0; waiters = [] };
  next = 1;
  queue = 0 ∷ [];
  guard = tt;
  kernel = sample;
}

notify_one-Notified_example :
    (s t : ℕ) × (after : Condvar Unit) × (notify_one waiting ≡ (ok tt, after))
    × Notified s t waiting after
notify_one-Notified_example = notify_one-Notified waiting waiting-CondvarInv (omega arith)

wait_down-Parked_example :
    (after : Condvar Unit) × (wait_down free_lock 0 idle ≡ (ok (Stage.in_down 0 true), after))
    × Parked free_lock 0 idle after
wait_down-Parked_example = wait_down-Parked free_lock 0 1 idle sample-Inv refl refl
