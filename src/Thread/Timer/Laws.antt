-- ===== src/Thread/Timer/Laws.antt =====
-- A timer tick wakes exactly the sleepers whose time has come.
use tacos.Prelude.{
  false, ℕ, zero, suc, ◌+◌, ◌<◌, ◌≡◌, refl, sym, ap, ◌∙◌, Bool, true, List, [], ◌∷◌, length,
  if◌then◌else◌, leb, ltb, arith, inl, inr, Bool-cases, subst,
}
use tacos.Prelude.Outcome.{ok}
use tacos.Prelude.Run.{then-ok}
use tacos.Thread.State.{Status, Kernel, SleepData, is_blocked, priorities}
use tacos.Thread.Manager.Invariant.{Inv}
use tacos.Thread.SleepQueue.{
  extract_min, one_for, entries, due_for, due, AllLater, extract_min-entries, extract_min-due,
  length-extract_min, extract_min-AllLater, AllLater-due, Sleeping,
}
use tacos.Thread.Calls.Laws.{Woken, wake_up-Woken}
use tacos.Thread.Timer.{with_sleepers, wake_due, count_tick, tick}

-- The invariant reads neither the sleep queue, the tick count nor the interrupt level.
pub Inv-reset :
    (q : List SleepData) (n : ℕ) (b : Bool) (k : Kernel)
    → Inv k
    → Inv (record k { sleep_queue = q; ticks = n; intr = b })
Inv-reset q n b k v = record {
  table = record {
    queue_total = v.table.queue_total;
    queued = v.table.queued;
    in_range = v.table.in_range;
    stacks = v.table.stacks;
  };
  running = record { runs = v.running.runs; alone = v.running.alone };
}

-- What the sleep queue and the threads have become when the loop ends at time `now`.
pub record Ticked (now : ℕ) (k after : Kernel) : Type 0 where
  pub inv : Inv after
  pub asleep : Sleeping after
  pub woken :
      (t : ℕ)
      → (after.threads t).status
        ≡ (if ltb 0 (due now t k.sleep_queue) then Status.ready else (k.threads t).status)
  pub later : AllLater now after.sleep_queue
  pub kept :
      (t : ℕ) → entries t after.sleep_queue + due now t k.sleep_queue ≡ entries t k.sleep_queue
  pub same_priority : (t : ℕ) → priorities after t ≡ priorities k t
  pub current : after.current ≡ k.current
  pub ticks : after.ticks ≡ k.ticks

Ticked-refl :
    (now : ℕ) (k : Kernel) → Inv k → Sleeping k → AllLater now k.sleep_queue → Ticked now k k
Ticked-refl now k v s l = record {
  inv = v;
  asleep = s;
  woken = λ t. rw (AllLater-due now t k.sleep_queue l) refl;
  later = l;
  kept = λ t. omega (arith, AllLater-due now t k.sleep_queue l);
  same_priority = λ t. refl;
  current = refl;
  ticks = refl;
}

module _ (now : ℕ) (k : Kernel) (d : SleepData) (ds : List SleepData)
    (q : k.sleep_queue ≡ d ∷ ds) where
  abbrev low : SleepData
  low = (extract_min d ds).0

  abbrev rest : List SleepData
  rest = (extract_min d ds).1

  split_entries : (t : ℕ) → one_for t low + entries t rest ≡ entries t k.sleep_queue
  split_entries t = extract_min-entries t d ds ∙ sym (ap (entries t) q)

  split_due : (t : ℕ) → due_for now t low + due now t rest ≡ due now t k.sleep_queue
  split_due t = extract_min-due now t d ds ∙ sym (ap (due now t) q)

  low_blocked : Sleeping k → is_blocked (k.threads low.thread).status ≡ true
  low_blocked s =
      let one : one_for low.thread low ≡ 1 = ground arith in
      ground (arith, s low.thread, split_entries low.thread, one)

  -- One round that wakes the earliest sleeper, and then the rest of the loop.
  round-Ticked :
      (mid after : Kernel)
      → leb low.ticks now ≡ true
      → Woken low.thread (with_sleepers rest k) mid
      → Sleeping k
      → Ticked now mid after
      → Ticked now k after
  round-Ticked mid after at w s r = record {
    inv = r.inv;
    asleep = r.asleep;
    woken = λ t. ground (arith, r.woken t, w.status t, ap (due now t) w.sleepers, split_due t);
    later = r.later;
    kept = λ t. ground (
      arith,
      r.kept t,
      ap (due now t) w.sleepers,
      ap (entries t) w.sleepers,
      split_due t,
      split_entries t,
    );
    same_priority = λ t. r.same_priority t ∙ w.same_priority t;
    current = r.current ∙ w.current;
    ticks = r.ticks ∙ w.ticks;
  }

  mid-Sleeping :
      (mid : Kernel) → Woken low.thread (with_sleepers rest k) mid → Sleeping k → Sleeping mid
  mid-Sleeping mid w s t =
      ground (arith, s t, w.status t, ap (entries t) w.sleepers, split_entries t)

wake_due-Ticked :
    (fuel now : ℕ) (k : Kernel) (q : List SleepData)
    → k.sleep_queue ≡ q
    → length q < fuel
    → Inv k
    → Sleeping k
    → (after : Kernel) × (wake_due fuel now k ≡ (ok tt, after)) × Ticked now k after
unfolding wake_due
wake_due-Ticked zero now k q e h v s = absurd (omega arith)
wake_due-Ticked (suc fuel) now k [] e h v s =
    (k, simp (e, wake_due), Ticked-refl now k v s (subst (AllLater now) (sym e) tt))
wake_due-Ticked (suc fuel) now k (d ∷ ds) e h v s =
    let lo = (extract_min d ds).0 in
    let re = (extract_min d ds).1 in
    elim (Bool-cases (leb lo.ticks now)) [
      | inl at ↦
          let start : Kernel = with_sleepers re k in
          let (mid, wakes, w) =
            wake_up-Woken lo.thread start (Inv-reset re k.ticks k.intr k v)
              (low_blocked now k d ds e s) in
          let (after, runs, r) =
            wake_due-Ticked fuel now mid re w.sleepers (omega (arith, length-extract_min d ds))
              w.inv (mid-Sleeping now k d ds e mid w s) in
          (
            after,
            simp (e, wake_due, at) (then-ok _ _ refl (then-ok _ _ wakes runs)),
            round-Ticked now k d ds e mid after at w s r,
          )
      | inr early ↦
          let later : AllLater now (d ∷ ds) = extract_min-AllLater now d ds (ground arith) in
          (k, simp (e, wake_due, early), Ticked-refl now k v s (subst (AllLater now) (sym e) later))
    ]

-- From a well-formed kernel, `tick` succeeds. It counts the tick and wakes exactly the sleepers whose
-- wake time has come: they become ready and leave the sleep queue, every other thread keeps its
-- status, every later entry stays, and only later ones do. The kernel stays well formed, the
-- current thread, the priorities and the interrupt level stay as they are.
pub tick-Ticked :
    (k : Kernel)
    → Inv k
    → Sleeping k
    → (after : Kernel) × (tick k ≡ (ok tt, after))
      × Ticked (k.ticks + 1) (count_tick k) after
      × (after.intr ≡ k.intr)
unfolding tick
tick-Ticked k v s =
    let start : Kernel = count_tick k in
    let (mid, runs, r) =
      wake_due-Ticked (suc (length k.sleep_queue)) (k.ticks + 1) start k.sleep_queue refl
        (omega arith) (Inv-reset k.sleep_queue (k.ticks + 1) false k v) s in
    (
      record mid { intr = k.intr },
      then-ok _ _ refl (then-ok _ _ runs refl),
      record {
        inv = Inv-reset mid.sleep_queue mid.ticks k.intr mid r.inv;
        asleep = r.asleep;
        woken = r.woken;
        later = r.later;
        kept = r.kept;
        same_priority = r.same_priority;
        current = r.current;
        ticks = r.ticks;
      },
      refl,
    )
