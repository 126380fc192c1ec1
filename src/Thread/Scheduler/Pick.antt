-- ===== src/Thread/Scheduler/Pick.antt =====
-- `schedule` of priority.rs: which thread is chosen, and what is left in the queues.
use tacos.Prelude.{
  ℕ, zero, suc, ◌+◌, ◌≤◌, ◌<◌, ◌≡◌, refl, sym, ap, subst, ◌∙◌, Bool, true, Option, none, some, [],
  ◌∷◌, get_or, set, length, ltb, ◌&&◌, length-set, All, All-set, All-get_or, arith, Bool-cases, ◌⊎◌,
  inl, inr, ◌==◌,
}
use tacos.Prelude.Deque.{
  count, count-append, push_back, pop_back_cases, All-append_left, All-append_right, All-at,
  set-get_or, set-set,
}
use tacos.Prelude.Outcome.{ok}
use tacos.Thread.Scheduler.{Queues, queue_count, pick, schedule}
use tacos.Thread.Scheduler.Queues.{occurs, occurs-set, occurs_pos, occurs-zero, InRange}
use tacos.Thread.Scheduler.Update.{update_priority_lem}

module _ (priority : ℕ → ℕ) (current_priority : ℕ) (current_running : Bool) where
  -- No thread is ready.
  pub record Nothing (qs after : Queues) : Type 0 where
    pub all_gone : (u : ℕ) → occurs u qs ≡ 0
    pub unchanged : (u : ℕ) → occurs u after ≡ 0

  -- The current thread goes on: it runs, and every ready thread has a lower priority.
  pub record Keep (qs after : Queues) : Type 0 where
    pub running : current_running ≡ true
    pub lower : (u : ℕ) → 0 < occurs u qs → priority u < current_priority
    pub unchanged : (u : ℕ) → occurs u after ≡ occurs u qs

  -- `chosen` leaves the queues. No ready thread has a higher priority, nor does the current thread
  -- if it can go on.
  pub record Chosen (chosen : ℕ) (qs after : Queues) : Type 0 where
    pub highest : (u : ℕ) → 0 < occurs u qs → priority u ≤ priority chosen
    pub preempts : current_running ≡ true → current_priority ≤ priority chosen
    pub taken : (u : ℕ) → occurs u after + count u (chosen ∷ []) ≡ occurs u qs

  abbrev pub Choice : Queues → Queues → Option ℕ → Type 0
  Choice qs after none = Nothing qs after ⊎ Keep qs after
  Choice qs after (some chosen) = Chosen chosen qs after

  -- The queues from `n` on are empty.
  abbrev EmptyFrom : ℕ → Queues → Type 0
  EmptyFrom n qs = (j : ℕ) → n ≤ j → get_or qs j [] ≡ []

  -- In sorted queues, a thread that occurs stands in the queue of its priority.
  occurs-at :
      (qs : Queues) (n u : ℕ)
      → ((j : ℕ) → j < length qs → All (λ t. priority t ≡ j) (get_or qs j []))
      → EmptyFrom n qs
      → 0 < occurs u qs
      → priority u < n
  occurs-at qs n u sorted empty h =
      let (i, lt, c) = occurs_pos u qs h in
      let at : priority u ≡ i = All-at (λ t. priority t ≡ i) u (get_or qs i []) (sorted i lt) c in
      elim (Bool-cases (ltb i n)) [
        | inl small ↦ ground arith
        | inr large ↦
            let none_there : count u (get_or qs i []) ≡ 0 = ap (count u) (empty i (ground arith)) in
            absurd (omega arith)
      ]

  pick_cases :
      (n : ℕ) (qs : Queues)
      → n ≤ length qs
      → ((j : ℕ) → j < length qs → All (λ t. priority t ≡ j) (get_or qs j []))
      → EmptyFrom n qs
      → (out : Option ℕ) × (after : Queues) × (pick priority current_priority current_running n qs
          ≡ (ok out, after))
        × Choice qs after out
        × (length after ≡ length qs)
        × (InRange priority qs → InRange priority after)
  unfolding pick
  pick_cases zero qs n sorted empty =
      let gone : (u : ℕ) → occurs u qs ≡ 0 = λ u. occurs-zero u qs (λ i. empty i (omega arith)) in
      (none, qs, refl, inl (record { all_gone = gone; unchanged = gone }), refl, λ r. r)
  pick_cases (suc i) qs n sorted empty = elim (pop_back_cases (get_or qs i [])) [
    | inl (e, none_there) ↦
        let (out, after, runs, c, len, range) = pick_cases i qs (omega arith) sorted (λ j le.
          elim (Bool-cases (i == j)) [
            | inl same ↦ let e' : i ≡ j = ground arith in rw (← e') none_there
            | inr ne ↦ empty j (ground arith)
          ]) in
        (out, after, rw (e, pick) runs, c, len, range)
    | inr (chosen, rest, e, q) ↦
        let q_sorted = subst (All (λ t. priority t ≡ i)) q (sorted i (omega arith)) in
        let at : priority chosen ≡ i = (All-append_right _ rest (chosen ∷ []) q_sorted).0 in
        let back : set (set qs i rest) i (push_back rest chosen) ≡ qs =
          set-set qs i rest (push_back rest chosen) ∙ ap (set qs i) (sym q) ∙ set-get_or qs i [] in
        let highest : (u : ℕ) → 0 < occurs u qs → priority u ≤ priority chosen =
          λ u h. omega (arith, occurs-at qs (suc i) u sorted empty h) in
        elim (Bool-cases (ltb (priority chosen) current_priority && current_running)) [
          | inl stay ↦ (
            none,
            qs,
            rw (e, pick, stay, back) refl,
            inr (record {
              running = ground arith;
              lower = λ u h. ground (arith, highest u h);
              unchanged = λ u. refl;
            }),
            refl,
            λ r. r,
          )
          | inr go ↦ (
            some chosen,
            set qs i rest,
            rw (e, pick, go) refl,
            record {
              highest = highest;
              preempts = λ run. ground arith;
              taken = λ u. omega (
                arith,
                occurs-set u qs i rest (omega arith),
                ap (count u) q,
                count-append u rest (chosen ∷ []),
              );
            },
            length-set qs i rest,
            λ r. All-set (All (λ t. priority t < 64)) qs i rest r (
                All-append_left _ rest (chosen ∷ []) (
                  subst (All (λ t. priority t < 64)) q
                    (All-get_or (All (λ t. priority t < 64)) qs i [] r tt))),
          )
        ]
  ]

  -- The contract of `Schedule::schedule`.
  pub record Scheduled (qs after : Queues) (out : Option ℕ) : Type 0 where
    pub choice : Choice qs after out
    pub queue_total : length after ≡ queue_count
    pub in_range : InRange priority after

  carry :
      (qs mid after : Queues) (out : Option ℕ)
      → ((u : ℕ) → occurs u mid ≡ occurs u qs)
      → Choice mid after out
      → Choice qs after out
  carry qs mid after none same (inl e) =
      inl (record { all_gone = λ u. sym (same u) ∙ e.all_gone u; unchanged = e.unchanged })
  carry qs mid after none same (inr k) = inr (record {
    running = k.running;
    lower = λ u h. k.lower u (omega (arith, same u));
    unchanged = λ u. k.unchanged u ∙ same u;
  })
  carry qs mid after (some chosen) same c = record {
    highest = λ u h. c.highest u (omega (arith, same u));
    preempts = c.preempts;
    taken = λ u. c.taken u ∙ same u;
  }

  get_or-beyond : (qs : Queues) (j : ℕ) → length qs ≤ j → get_or qs j [] ≡ []
  get_or-beyond [] j h = refl
  get_or-beyond (q ∷ qs) zero h = absurd (omega arith)
  get_or-beyond (q ∷ qs) (suc j) h = get_or-beyond qs j (omega arith)

  -- With 64 queues of threads whose priorities are below 64, `schedule` never panics. It chooses a
  -- ready thread that no ready thread exceeds in priority, nor the current thread if it is running,
  -- and takes just that one from the queues. It chooses none exactly when no thread is ready, or
  -- the current thread is running and every ready thread has a lower priority; then the same
  -- threads stay queued.
  pub schedule_lem :
      (qs : Queues)
      → length qs ≡ queue_count
      → InRange priority qs
      → (out : Option ℕ) × (after : Queues) × (schedule priority current_priority current_running qs
          ≡ (ok out, after))
        × Scheduled qs after out
  unfolding schedule
  schedule_lem qs n r =
      let (mid, updates, u) = update_priority_lem priority qs n r in
      let m : length mid ≡ queue_count = u.count_queues in
      let (out, after, picks, c, len, range) =
        pick_cases queue_count mid (omega arith) (λ j lt. u.sorted j (omega arith))
          (λ j le. get_or-beyond mid j (omega arith)) in
      (
        out,
        after,
        rw (updates, picks) refl,
        record {
          choice = carry qs mid after out u.occurrences c;
          queue_total = len ∙ m;
          in_range = range u.in_range;
        },
      )
