-- ===== src/Thread/Tests.antt =====
-- Runs of the thread interface on the sample kernel.
use tacos.Prelude.{length, List, [], ◌∷◌, ℕ, ◌≡◌, refl, true, Option, arith}
use tacos.Prelude.Outcome.{ok}
use tacos.Thread.Scheduler
use tacos.Thread.Scheduler.{Queues, empty_queues, update_priority}
use tacos.Thread.Scheduler.Queues.{InRange-of_all}
use tacos.Thread.Scheduler.Pick.{Scheduled, schedule_lem}
use tacos.Thread.State.{Status, Kernel, priorities}
use tacos.Thread.Manager.{schedule}
use tacos.Thread.Manager.Reschedule.{Rescheduled, schedule-Rescheduled}
use tacos.Thread.Calls.{exit}
use tacos.Thread.Calls.Laws.{GivesUp, exit-GivesUp}
use tacos.Thread.Calls.Priority.{Inv-CanSchedule}
use tacos.Thread.Fcfs.{arrive, serve, serve-arrive}
use tacos.Thread.Sample.{sample, sample-Inv}

schedule_lem_example :
    (out : Option ℕ) × (after : Queues) × (Scheduler.schedule
        (priorities sample)
        31
        true
        sample.queues
      ≡ (ok out, after))
    × Scheduled (priorities sample) 31 true sample.queues after out
schedule_lem_example =
    schedule_lem (priorities sample) 31 true sample.queues refl
      (InRange-of_all (priorities sample) sample.queues (λ t. ground arith))

schedule-Rescheduled_example :
    (after : Kernel) × (schedule sample ≡ (ok tt, after)) × Rescheduled sample after
schedule-Rescheduled_example = schedule-Rescheduled sample (Inv-CanSchedule sample sample-Inv)

exit-GivesUp_example :
    (after : Kernel) × (exit sample ≡ (ok tt, after)) × GivesUp Status.dying sample after
exit-GivesUp_example = exit-GivesUp sample 1 sample-Inv refl

abbrev arrivals : List ℕ
arrivals = 4 ∷ 2 ∷ 9 ∷ []

serve-arrive_example : serve (length arrivals) (arrive arrivals []) ≡ arrivals
serve-arrive_example = serve-arrive arrivals
