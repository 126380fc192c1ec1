-- ===== src/Thread/Scheduler/Queues.antt =====
-- The queues as a collection of threads.
use tacos.Prelude.{
  length-set, lt→ltb, ◌∙◌, ℕ, zero, suc, ◌+◌, ◌<◌, ◌≡◌, refl, List, [], ◌∷◌, ◌⊎◌, inl, inr, ap,
  get_or, set, length, All, arith,
}
use tacos.Prelude.Deque.{count, push_front}
use tacos.Prelude.Outcome.{ok}
use tacos.Thread.Scheduler.{Queues, queue_count, register}

-- How often a thread stands in the queues.
abbrev pub occurs : ℕ → Queues → ℕ
occurs t [] = 0
occurs t (q ∷ qs) = count t q + occurs t qs

pub occurs-set :
    (t : ℕ) (qs : Queues) (i : ℕ) (q : List ℕ)
    → i < length qs
    → occurs t (set qs i q) + count t (get_or qs i []) ≡ occurs t qs + count t q
occurs-set t [] i q h = absurd (omega arith)
occurs-set t (x ∷ qs) zero q h = omega arith
occurs-set t (x ∷ qs) (suc i) q h = omega (arith, occurs-set t qs i q (omega arith))

-- A thread that occurs stands in some queue.
pub occurs_pos :
    (t : ℕ) (qs : Queues)
    → 0 < occurs t qs
    → (i : ℕ) × (i < length qs) × (0 < count t (get_or qs i []))
occurs_pos t [] h = absurd (omega arith)
occurs_pos t (q ∷ qs) h =
    let e : (0 < count t q) ⊎ (0 < occurs t qs) = omega arith in
    elim e [
      | inl p ↦ (0, omega arith, p)
      | inr p ↦ let (i, a, b) = occurs_pos t qs p in (suc i, omega arith, b)
    ]

pub occurs-zero : (t : ℕ) (qs : Queues) → ((i : ℕ) → get_or qs i [] ≡ []) → occurs t qs ≡ 0
occurs-zero t [] h = refl
occurs-zero t (q ∷ qs) h = omega (arith, ap (count t) (h 0), occurs-zero t qs (λ i. h (suc i)))

-- Queue `i` holds threads of priority `i` only.
abbrev pub IsSorted : (ℕ → ℕ) → Queues → Type 0
IsSorted priority qs = (i : ℕ) → All (λ t. priority t ≡ i) (get_or qs i [])

-- Every queued thread has a priority that a queue is there for.
abbrev pub InRange : (ℕ → ℕ) → Queues → Type 0
InRange priority qs = All (All (λ t. priority t < 64)) qs

pub InRange-of_all :
    (priority : ℕ → ℕ) (qs : Queues) → ((t : ℕ) → priority t < 64) → InRange priority qs
InRange-of_all priority [] h = tt
InRange-of_all priority (q ∷ qs) h = (each q, InRange-of_all priority qs h)
  where
    each : (l : List ℕ) → All (λ t. priority t < 64) l
    each [] = tt
    each (t ∷ l) = (h t, each l)

-- `register` adds its thread to the queues.
pub register_lem :
    (priority : ℕ → ℕ) (t : ℕ) (qs : Queues)
    → length qs ≡ queue_count
    → priority t < queue_count
    → (after : Queues) × (register priority t qs ≡ (ok tt, after))
      × (length after ≡ queue_count)
      × ((u : ℕ) → occurs u after ≡ occurs u qs + count u (t ∷ []))
unfolding register
register_lem priority t qs n h =
    let p = priority t in
    let q = push_front (get_or qs p []) t in
    (
      set qs p q,
      rw (lt→ltb p 64 h) refl,
      length-set qs p q ∙ n,
      λ u. omega (arith, occurs-set u qs p q (omega arith)),
    )
