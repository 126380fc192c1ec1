-- ===== src/Sync/Semaphore/Max.antt =====
-- `get_maxpriority` of sema.rs: the index of a waiter of the highest priority, the one that waits
-- longest among those.
use tacos.Prelude.{
  ℕ, zero, suc, ◌+◌, ◌≤◌, ◌<◌, ◌≡◌, refl, ap, ◌∙◌, some, List, [], ◌∷◌, length, get_or, leb, ◌==◌,
  arith, inl, inr, ◌⊎◌, Bool-cases,
}
use tacos.Prelude.Deque.{count}
use tacos.Sync.Semaphore.{max_from, get_maxpriority, remove_at}

module _ (priority : ℕ → ℕ) where
  -- `(index, best)` is the answer for the waiters from `i` on, when `index0` and `best0` are found
  -- among the earlier ones.
  record MaxFrom (ts : List ℕ) (i index0 best0 index best : ℕ) : Type 0 where
    found :
        ((index ≡ index0) × (best ≡ best0))
        ⊎ ((j : ℕ) × (j < length ts) × (index ≡ i + j) × (best ≡ priority (get_or ts j 0)))
    at_least : best0 ≤ best
    highest : (j : ℕ) → j < length ts → priority (get_or ts j 0) ≤ best
    newest_lower : (j : ℕ) → j < length ts → index < i + j → priority (get_or ts j 0) < best

  max_from-MaxFrom :
      (ts : List ℕ) (i index0 best0 : ℕ)
      → index0 ≤ i
      → let (index, best) = max_from priority ts i index0 best0 in
        MaxFrom ts i index0 best0 index best
  unfolding max_from
  max_from-MaxFrom [] i index0 best0 h = record {
    found = inl (refl, refl);
    at_least = omega arith;
    highest = λ j lt. absurd (omega arith);
    newest_lower = λ j lt. absurd (omega arith);
  }
  max_from-MaxFrom (t ∷ ts) i index0 best0 h = elim (Bool-cases (leb best0 (priority t))) [
    | inl e ↦
        let (index, best) = max_from priority ts (i + 1) i (priority t) in
        let r : MaxFrom ts (i + 1) i (priority t) index best =
          max_from-MaxFrom ts (i + 1) i (priority t) (omega arith) in
        rw (e, max_from)
          (record {
            found = elim r.found [
              | inl (a, b) ↦ inr (0, omega arith, omega arith, b)
              | inr (j, lt, a, b) ↦ inr (suc j, omega arith, omega arith, b)
            ];
            at_least = ground (arith, r.at_least);
            highest = λ j.
                elim j as (λ j. j < length (t ∷ ts) → priority (get_or (t ∷ ts) j 0) ≤ best) [
                  | zero ↦ λ lt. r.at_least
                  | suc j ↦ λ lt. r.highest j (omega arith)
                ];
            newest_lower = λ j.
                elim j
                  as (λ j.
                    j < length (t ∷ ts) → index < i + j → priority (get_or (t ∷ ts) j 0) < best) [
                      | zero ↦ λ lt later. elim r.found [
                        | inl (a, b) ↦ absurd (omega arith)
                        | inr (k, kt, a, b) ↦ absurd (omega arith)
                      ]
                      | suc j ↦ λ lt later. r.newest_lower j (omega arith) (omega arith)
                    ];
          })
    | inr e ↦
        let (index, best) = max_from priority ts (i + 1) index0 best0 in
        let r : MaxFrom ts (i + 1) index0 best0 index best =
          max_from-MaxFrom ts (i + 1) index0 best0 (omega arith) in
        rw (e, max_from)
          (record {
            found = elim r.found [
              | inl (a, b) ↦ inl (a, b)
              | inr (j, lt, a, b) ↦ inr (suc j, omega arith, omega arith, b)
            ];
            at_least = r.at_least;
            highest = λ j.
                elim j as (λ j. j < length (t ∷ ts) → priority (get_or (t ∷ ts) j 0) ≤ best) [
                  | zero ↦ λ lt. ground (arith, r.at_least)
                  | suc j ↦ λ lt. r.highest j (omega arith)
                ];
            newest_lower = λ j.
                elim j
                  as (λ j.
                    j < length (t ∷ ts) → index < i + j → priority (get_or (t ∷ ts) j 0) < best) [
                      | zero ↦ λ lt later. ground (arith, r.at_least)
                      | suc j ↦ λ lt later. r.newest_lower j (omega arith) (omega arith)
                    ];
          })
  ]

  -- The waiter at `index` has the highest priority `best`, and every waiter behind it, which has
  -- come to wait earlier, has a lower one.
  pub record IsOldestMax (ts : List ℕ) (index best : ℕ) : Type 0 where
    pub inside : index < length ts
    pub value : best ≡ priority (get_or ts index 0)
    pub highest : (j : ℕ) → j < length ts → priority (get_or ts j 0) ≤ best
    pub oldest : (j : ℕ) → j < length ts → index < j → priority (get_or ts j 0) < best

  -- With a waiter, `get_maxpriority` answers the index and the priority of the longest waiting among
  -- the waiters of the highest priority.
  pub get_maxpriority-IsOldestMax :
      (ts : List ℕ)
      → 0 < length ts
      → let (index, best) = get_maxpriority priority ts in IsOldestMax ts index best
  unfolding get_maxpriority
  get_maxpriority-IsOldestMax ts pos =
      let (index, best) = max_from priority ts 0 0 0 in
      let r : MaxFrom ts 0 0 0 index best = max_from-MaxFrom ts 0 0 0 (omega arith) in
      elim r.found [
        | inl (a, b) ↦ record {
          inside = omega arith;
          value = omega (arith, r.highest 0 pos, ap (λ k. priority (get_or ts k 0)) a);
          highest = r.highest;
          oldest = λ j lt later. r.newest_lower j lt (omega arith);
        }
        | inr (j, lt, a, b) ↦ record {
          inside = omega arith;
          value = b ∙ ap (λ k. priority (get_or ts k 0)) (omega arith);
          highest = r.highest;
          oldest = λ j lt later. r.newest_lower j lt (omega arith);
        }
      ]

-- What `VecDeque::remove` takes out.
pub remove_at_lem :
    (ts : List ℕ) (i : ℕ)
    → i < length ts
    → (rest : List ℕ) × (remove_at ts i ≡ some (get_or ts i 0, rest))
      × ((u : ℕ) → count u rest + count u (get_or ts i 0 ∷ []) ≡ count u ts)
unfolding remove_at
remove_at_lem [] i h = absurd (omega arith)
remove_at_lem (t ∷ ts) zero h = (ts, refl, λ u. omega arith)
remove_at_lem (t ∷ ts) (suc i) h =
    let (rest, e, c) = remove_at_lem ts i (omega arith) in
    (t ∷ rest, rw e refl, λ u. omega (arith, c u))

-- A waiter that occurs stands at an index.
pub count_pos-index :
    (u : ℕ) (ts : List ℕ) → 0 < count u ts → (j : ℕ) × (j < length ts) × (get_or ts j 0 ≡ u)
count_pos-index u [] h = absurd (omega arith)
count_pos-index u (t ∷ ts) h = elim (Bool-cases (t == u)) [
  | inl e ↦ (0, omega arith, ground arith)
  | inr n ↦ let (j, lt, e) = count_pos-index u ts (ground arith) in (suc j, omega arith, e)
]
