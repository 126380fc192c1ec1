-- ===== src/Mem/Buddy/Sample.antt =====
-- An allocator with one free chunk of 256 pages.
use tacos.Prelude.{ℕ, ◌≡◌, refl, [], ◌∷◌}
use tacos.Prelude.Outcome.{ok}
use tacos.Prelude.Run.{◌>>◌}
use tacos.Mem.Buddy.{Buddy, alloc}

abbrev pub base : ℕ
base = 2147483648

abbrev pub one_chunk : Buddy
one_chunk = record {
  free_lists = [] ∷ [] ∷ [] ∷ [] ∷ [] ∷ [] ∷ [] ∷ [] ∷ (base ∷ []) ∷ [];
  total = 256;
  allocated = 0;
}

-- After one page has been taken.
abbrev pub one_taken : Buddy
one_taken = (alloc 1 one_chunk).1

pub takes_page : alloc 1 one_chunk ≡ (ok base, one_taken)
unfolding alloc ◌>>◌
takes_page = refl
