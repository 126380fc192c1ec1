-- ===== src/Mem/PageTable/Sample.antt =====
-- A root table without entries, and the two tables below it that a first page needs.
use tacos.Prelude.{ℕ, ◌≡◌, refl, none, [], ◌∷◌}
use tacos.Prelude.Outcome.{ok}
use tacos.Prelude.Run.{◌>>=◌, ◌>>◌}
use tacos.Mem.Buddy.{order_of, alloc, chunk}
use tacos.Mem.Heap.{new_heap, rounded, heap_alloc, is_power_of_two, pages_for, on_pages}
use tacos.Mem.Entry.{is_valid}
use tacos.Mem.PageTable.{false, Paging, px, walk, walk_or_create, zero_table, write_entry}

-- Addresses in the kernel's half: the root table, and the pages that the heap takes.
abbrev pub high : ℕ
high = 18446743800979128320

abbrev pub root : ℕ
root = 18446743802052870144

abbrev pub start : Paging
start = record {
  heap =
      new_heap (λ page. record { magic = 0; free_cnt = 0; desc = none })
        (record {
          free_lists = [] ∷ [] ∷ [] ∷ [] ∷ [] ∷ [] ∷ [] ∷ [] ∷ (high ∷ []) ∷ [];
          total = 256;
          allocated = 0;
        });
  entries = λ table index. 0;
}

-- The flags of a page of a user that can be read and written.
abbrev pub user_flags : ℕ
user_flags = 23

abbrev pub va : ℕ
va = 20480

abbrev pub one_level : Paging
one_level = (walk_or_create root (px 2 va) false start).1

abbrev pub two_levels : Paging
two_levels = (walk_or_create 18446743800979128320 (px 1 va) false one_level).1

-- Both tables are made from pages of the heap.
pub first_made : walk_or_create root (px 2 va) false start ≡ (ok 18446743800979128320, one_level)
unfolding walk_or_create walk is_valid ◌>>=◌ heap_alloc is_power_of_two rounded order_of ◌>>◌
    on_pages alloc pages_for new_heap
first_made = refl

pub second_made :
    walk_or_create 18446743800979128320 (px 1 va) false one_level
    ≡ (ok 18446743800979132416, two_levels)
unfolding walk_or_create walk is_valid ◌>>=◌ heap_alloc is_power_of_two rounded order_of ◌>>◌
    on_pages alloc pages_for new_heap write_entry zero_table chunk
second_made = refl
