-- ===== src/Mem/Buddy/Tests.antt =====
-- Runs of the allocator on one free chunk of 256 pages.
use tacos.Prelude.{ℕ, ◌+◌, ◌-◌, ◌^◌, ◌*◌, ◌≤◌, ◌<◌, ◌≡◌, refl, [], length, arith, ◌⊎◌}
use tacos.Prelude.Outcome.{ok, panic}
use tacos.Mem.Buddy.{Buddy, empty, insert_range, chunk, order_of, alloc, dealloc}
use tacos.Prelude.Run.{◌>>◌}
use tacos.Mem.Buddy.Sample.{one_chunk}
use tacos.Mem.Buddy.Inserting.{insert_range-Inserted}
use tacos.Mem.Buddy.Cover.{inside, cover, list_at}
use tacos.Mem.Buddy.Allocation.{Allocated, alloc-Allocated}
use tacos.Mem.Buddy.Merging.{Deallocated, dealloc-Deallocated}
use tacos.Mem.Buddy.Ownership.{IsDisjoint, alloc-apart}

-- After three pages have been asked for, of which a chunk of four has been taken.
abbrev four_taken : Buddy
four_taken = (alloc 3 one_chunk).1

-- After one page more.
abbrev five_taken : Buddy
five_taken = (alloc 1 four_taken).1

takes_four : alloc 3 one_chunk ≡ (ok 2147483648, four_taken)
unfolding alloc ◌>>◌
takes_four = refl

takes_one : alloc 1 four_taken ≡ (ok 2147500032, five_taken)
unfolding alloc ◌>>◌ chunk
takes_one = refl

one_chunk-IsDisjoint : IsDisjoint one_chunk
unfolding IsDisjoint cover chunk
one_chunk-IsDisjoint a = ground arith

alloc-Allocated_example :
    (order : ℕ) × (order ≤ 8)
    × (3 ≤ 2 ^ order)
    × ((j : ℕ) → j < order → 2 ^ j < 3)
    × (chunk order ≡ 4096 * 2 ^ order)
    × (((block : ℕ) × (after : Buddy) × (alloc 3 one_chunk ≡ (ok block, after))
          × Allocated order block one_chunk after)
        ⊎ ((alloc 3 one_chunk ≡ (panic, one_chunk))
            × ((i : ℕ) → order ≤ i → i < 9 → list_at one_chunk i ≡ [])))
alloc-Allocated_example = alloc-Allocated 3 one_chunk (omega arith) refl

four_counted : 2 ^ order_of 3 ≤ four_taken.allocated
unfolding alloc order_of ◌>>◌
four_counted = omega arith

four_lists : length four_taken.free_lists ≡ 9
unfolding alloc ◌>>◌
four_lists = refl

dealloc-Deallocated_example :
    (after : Buddy) × (dealloc 2147483648 3 four_taken ≡ (ok tt, after))
    × Deallocated (order_of 3) 2147483648 four_taken after
dealloc-Deallocated_example =
    dealloc-Deallocated 2147483648 3 four_taken (omega arith) four_lists four_counted

alloc-apart_example :
    IsDisjoint five_taken
    × ((a : ℕ)
        → cover five_taken a
            + inside (chunk (order_of 1)) 2147500032 a
            + inside (chunk (order_of 3)) 2147483648 a
          ≤ 1)
alloc-apart_example =
    alloc-apart 3 1 2147483648 2147500032 one_chunk four_taken five_taken (omega arith)
      (omega arith) refl one_chunk-IsDisjoint takes_four takes_one

insert_range-Inserted_example :
    (after : Buddy) × (insert_range 2147483649 2148532229 empty ≡ (ok tt, after))
    × ((a : ℕ) → cover after a ≡ cover empty a + inside (2148532224 - 2147487744) 2147487744 a)
    × (after.total ≡ empty.total + (2148532224 - 2147487744))
    × (after.allocated ≡ empty.allocated)
insert_range-Inserted_example =
    insert_range-Inserted 2147483649 2148532229 2147487744 2148532224 empty (omega arith)
      (omega arith) (omega arith) (omega arith) (omega arith) (omega arith) (omega arith)
      (omega arith) (omega arith) (omega arith) refl
