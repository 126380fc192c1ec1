-- ===== src/Thread/Fcfs.antt =====
-- src/thread/scheduler/fcfs.rs, the scheduler of a build without the priority feature.
use tacos.Prelude.{ℕ, zero, suc, ◌≡◌, refl, ap, ◌∙◌, Option, none, some, List, [], ◌∷◌, length}
use tacos.Prelude.Deque.{push_front, push_back, pop_back}

abbrev pub Fcfs : Type 0
Fcfs = List ℕ

unfoldable pub register : ℕ → Fcfs → Fcfs
register t q = push_front q t

unfoldable pub schedule : Fcfs → Option ℕ × Fcfs
schedule q = elim (pop_back q) [ none ↦ (none, q) | some (t, rest) ↦ (some t, rest) ]

-- Threads that are registered one after the other.
unfoldable pub arrive : List ℕ → Fcfs → Fcfs
unfolding register
arrive [] q = q
arrive (t ∷ ts) q = arrive ts (register t q)

-- The threads that calls of `schedule` choose, `n` calls or up to one that chooses none.
unfoldable pub serve : ℕ → Fcfs → List ℕ
unfolding schedule
serve zero q = []
serve (suc n) q = let (out, rest) = schedule q in elim out [ none ↦ [] | some t ↦ t ∷ serve n rest ]

pop_back-push_back : (q : Fcfs) (t : ℕ) → pop_back (push_back q t) ≡ some (t, q)
pop_back-push_back [] t = refl
pop_back-push_back (x ∷ q) t = rw (pop_back-push_back q t) refl

schedule-push_back : (q : Fcfs) (t : ℕ) → schedule (push_back q t) ≡ (some t, q)
unfolding schedule
schedule-push_back q t =
    ap (λ o. elim o [ none ↦ (none, push_back q t) | some (u, rest) ↦ (some u, rest) ])
      (pop_back-push_back q t)

arrive-push_back :
    (ts : List ℕ) (q : Fcfs) (t : ℕ) → arrive ts (push_back q t) ≡ push_back (arrive ts q) t
unfolding arrive register
arrive-push_back [] q t = refl
arrive-push_back (u ∷ ts) q t = arrive-push_back ts (u ∷ q) t

-- First come, first served: threads that are registered in an empty scheduler are chosen in the
-- order in which they were registered, each once.
pub serve-arrive : (ts : List ℕ) → serve (length ts) (arrive ts []) ≡ ts
unfolding serve arrive register
serve-arrive [] = refl
serve-arrive (t ∷ ts) =
    ap (serve (suc (length ts))) (arrive-push_back ts [] t)
    ∙ ap (λ r. elim r.0 [ none ↦ [] | some u ↦ u ∷ serve (length ts) r.1 ])
        (schedule-push_back (arrive ts []) t)
    ∙ ap (λ l. t ∷ l) (serve-arrive ts)
