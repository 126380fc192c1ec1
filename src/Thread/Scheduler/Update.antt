-- ===== src/Thread/Scheduler/Update.antt =====
-- `update_priority` of priority.rs: every thread moves to the queue of its priority, none is lost.
use tacos.Prelude.{
  ℕ, zero, suc, ◌+◌, ◌<◌, ◌≡◌, ◌≢◌, refl, ◌∙◌, ap, List, [], ◌∷◌, get_or, set, length, ◌==◌,
  length-set, get_or-set_self, get_or-set_ne, All, All-set, All-get_or, arith, lt→ltb, Bool-cases,
  inl, inr,
}
use tacos.Prelude.Deque.{count, count-append, push_back, All-append}
use tacos.Prelude.Outcome.{ok}
use tacos.Thread.Scheduler.{
  Queues, queue_count, requeue, drain, update_queue, update_from, update_priority,
}
use tacos.Thread.Scheduler.Queues.{occurs, occurs-set, InRange}

module _ (priority : ℕ → ℕ) where
  -- The first `n` queues are sorted.
  abbrev SortedBelow : ℕ → Queues → Type 0
  SortedBelow n qs = (j : ℕ) → j < n → All (λ t. priority t ≡ j) (get_or qs j [])

  -- `requeue` adds its thread to the queue of its priority and leaves the other queues alone.
  record Requeued (t : ℕ) (qs after : Queues) : Type 0 where
    runs : requeue priority t qs ≡ (ok tt, after)
    count_queues : length after ≡ queue_count
    in_range : InRange priority after
    occurrences : (u : ℕ) → occurs u after ≡ occurs u qs + count u (t ∷ [])
    at :
        (j : ℕ)
        → All (λ u. priority u ≡ j) (get_or qs j [])
        → All (λ u. priority u ≡ j) (get_or after j [])
    other : (j : ℕ) → priority t ≢ j → get_or after j [] ≡ get_or qs j []

  requeue-Requeued :
      (t : ℕ) (qs : Queues)
      → length qs ≡ queue_count
      → InRange priority qs
      → priority t < queue_count
      → (after : Queues) × Requeued t qs after
  unfolding requeue
  requeue-Requeued t qs n r h =
      let p = priority t in
      let q = push_back (get_or qs p []) t in
      (
        set qs p q,
        record {
          runs = rw (lt→ltb p 64 h) refl;
          count_queues = length-set qs p q ∙ n;
          in_range = All-set (All (λ t. priority t < 64)) qs p q r (
              All-append (λ t. priority t < 64) (get_or qs p []) (t ∷ [])
                (All-get_or (All (λ t. priority t < 64)) qs p [] r tt) (h, tt));
          occurrences = λ u.
              omega (
                arith,
                occurs-set u qs p q (omega arith),
                count-append u (get_or qs p []) (t ∷ []),
              );
          at = λ j sorted. elim (Bool-cases (p == j)) [
            | inl e ↦
                let e' : p ≡ j = ground arith in
                rw (← e', get_or-set_self qs p q [] (omega arith))
                  (All-append (λ u. priority u ≡ p) (get_or qs p []) (t ∷ []) (rw (← e') at sorted)
                    (refl, tt))
            | inr d ↦ rw (get_or-set_ne qs p j q [] (λ e. ground arith)) sorted
          ];
          other = λ j d. get_or-set_ne qs p j q [] d;
        },
      )

  -- The inner loop: queue `i` splits into what stays, in order, and what moves.
  record Drained (i : ℕ) (rest temp : List ℕ) (qs : Queues) (kept : List ℕ) (after : Queues)
      : Type 0 where
    runs : drain priority i rest temp qs ≡ (ok kept, after)
    count_queues : length after ≡ queue_count
    in_range : InRange priority after
    kept_sorted : All (λ t. priority t ≡ i) kept
    occurrences :
        (u : ℕ) → count u kept + occurs u after ≡ count u temp + count u rest + occurs u qs
    at :
        (j : ℕ)
        → All (λ u. priority u ≡ j) (get_or qs j [])
        → All (λ u. priority u ≡ j) (get_or after j [])
    same_queue : get_or after i [] ≡ get_or qs i []

  drain-Drained :
      (i : ℕ) (rest temp : List ℕ) (qs : Queues)
      → length qs ≡ queue_count
      → InRange priority qs
      → All (λ t. priority t < 64) rest
      → All (λ t. priority t ≡ i) temp
      → (kept : List ℕ) × (after : Queues) × Drained i rest temp qs kept after
  unfolding drain
  drain-Drained i [] temp qs n r inside sorted = (
    temp,
    qs,
    record {
      runs = refl;
      count_queues = n;
      in_range = r;
      kept_sorted = sorted;
      occurrences = λ u. omega arith;
      at = λ j h. h;
      same_queue = refl;
    },
  )
  drain-Drained i (t ∷ rest) temp qs n r inside sorted = elim (Bool-cases (priority t == i)) [
    | inl e ↦
        let (kept, after, d) =
          drain-Drained i rest (push_back temp t) qs n r inside.1
            (All-append (λ t. priority t ≡ i) temp (t ∷ []) sorted (ground arith, tt)) in
        (
          kept,
          after,
          record {
            runs = rw (e, drain) d.runs;
            count_queues = d.count_queues;
            in_range = d.in_range;
            kept_sorted = d.kept_sorted;
            occurrences = λ u. omega (arith, d.occurrences u, count-append u temp (t ∷ []));
            at = d.at;
            same_queue = d.same_queue;
          },
        )
    | inr ne ↦
        let (mid, q) = requeue-Requeued t qs n r inside.0 in
        let (kept, after, d) =
          drain-Drained i rest temp mid q.count_queues q.in_range inside.1 sorted in
        (
          kept,
          after,
          record {
            runs = rw (ne, drain, q.runs) d.runs;
            count_queues = d.count_queues;
            in_range = d.in_range;
            kept_sorted = d.kept_sorted;
            occurrences = λ u. omega (arith, d.occurrences u, q.occurrences u);
            at = λ j h. d.at j (q.at j h);
            same_queue = d.same_queue ∙ q.other i (λ e. ground arith);
          },
        )
  ]

  -- A run of `update_priority` from queue `i` on.
  pub record Updated (qs after : Queues) : Type 0 where
    pub count_queues : length after ≡ queue_count
    pub in_range : InRange priority after
    pub occurrences : (u : ℕ) → occurs u after ≡ occurs u qs
    pub sorted : (j : ℕ) → j < queue_count → All (λ t. priority t ≡ j) (get_or after j [])

  round :
      (i : ℕ) (qs : Queues)
      → i < queue_count
      → length qs ≡ queue_count
      → InRange priority qs
      → SortedBelow i qs
      → (after : Queues) × (update_queue priority i qs ≡ (ok tt, after))
        × (length after ≡ queue_count)
        × InRange priority after
        × ((u : ℕ) → occurs u after ≡ occurs u qs)
        × SortedBelow (i + 1) after
  unfolding update_queue
  round i qs h n r sorted =
      let q = get_or qs i [] in
      let (kept, mid, d) =
        drain-Drained i q [] qs n r (All-get_or (All (λ t. priority t < 64)) qs i [] r tt) tt in
      let n' : length mid ≡ queue_count = d.count_queues in
      (
        set mid i kept,
        rw d.runs refl,
        length-set mid i kept ∙ n',
        All-set (All (λ t. priority t < 64)) mid i kept d.in_range (below kept d.kept_sorted),
        λ u. omega (
          arith,
          occurs-set u mid i kept (omega arith),
          d.occurrences u,
          ap (count u) d.same_queue,
        ),
        λ j lt. elim (Bool-cases (i == j)) [
          | inl e ↦
              let e' : i ≡ j = ground arith in
              rw (← e', get_or-set_self mid i kept [] (omega arith)) d.kept_sorted
          | inr ne ↦
              rw (get_or-set_ne mid i j kept [] (λ e. ground arith))
                (d.at j (sorted j (ground arith)))
        ],
      )
    where
      below : (l : List ℕ) → All (λ t. priority t ≡ i) l → All (λ t. priority t < 64) l
      below [] a = tt
      below (x ∷ l) a = (omega arith, below l a.1)

  update_from-Updated :
      (rounds i : ℕ) (qs : Queues)
      → rounds + i ≡ queue_count
      → length qs ≡ queue_count
      → InRange priority qs
      → SortedBelow i qs
      → (after : Queues) × (update_from priority rounds i qs ≡ (ok tt, after)) × Updated qs after
  unfolding update_from
  update_from-Updated zero i qs e n r sorted = (
    qs,
    refl,
    record {
      count_queues = n;
      in_range = r;
      occurrences = λ u. refl;
      sorted = λ j lt. sorted j (omega arith);
    },
  )
  update_from-Updated (suc rounds) i qs e n r sorted =
      let (mid, runs, n', r', occ, s') = round i qs (omega arith) n r sorted in
      let (after, rest, u) = update_from-Updated rounds (i + 1) mid (omega arith) n' r' s' in
      (
        after,
        rw runs rest,
        record {
          count_queues = u.count_queues;
          in_range = u.in_range;
          occurrences = λ t. u.occurrences t ∙ occ t;
          sorted = u.sorted;
        },
      )

  -- If every queued thread has a priority below 64, `update_priority` succeeds, keeps every thread
  -- in the queues as often as before, and leaves each thread in the queue of its priority.
  pub update_priority_lem :
      (qs : Queues)
      → length qs ≡ queue_count
      → InRange priority qs
      → (after : Queues) × (update_priority priority qs ≡ (ok tt, after)) × Updated qs after
  unfolding update_priority
  update_priority_lem qs n r =
      update_from-Updated queue_count 0 qs refl n r (λ j lt. absurd (omega arith))
