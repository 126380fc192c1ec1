-- ===== src/Mem/Arena/Tests.antt =====
-- Runs of a pool of blocks of 32 bytes, from an empty free list.
use tacos.Prelude.{ℕ, ◌+◌, ◌^◌, ◌<◌, ◌≡◌, refl, some, none, [], ◌∷◌, arith}
use tacos.Prelude.Outcome.{ok}
use tacos.Mem.Buddy.Sample.{base, one_chunk, one_taken, takes_page}
use tacos.Mem.Arena.{
  Pool, arena_magic, new_desc, blocks_for, block_at, page_of, take_block, desc_alloc, desc_dealloc,
}
use tacos.Mem.Arena.Bounds.{Within, block_at-Within}
use tacos.Mem.Arena.Pools.{IsWell}
use tacos.Mem.Arena.Returning.{desc_dealloc-take_block}
use tacos.Mem.Arena.Refilling.{Supply, Served, desc_alloc-Served}

last_fits : 125 < blocks_for (2 ^ (2 + 3))
unfolding blocks_for
last_fits = omega arith

block_at-Within_example : Within (2 ^ (2 + 3)) base (block_at (2 ^ (2 + 3)) base 125)
block_at-Within_example = block_at-Within 2 125 base (omega arith) refl last_fits

-- No page has a header yet.
abbrev blank : Pool
blank = record {
  desc = new_desc 32;
  headers = λ page. record { magic = 0; free_cnt = 0; desc = none };
  pages = one_chunk;
}

blank-IsWell : IsWell blank
unfolding new_desc
blank-IsWell = record {
  index = 2;
  index_fits = omega arith;
  size = refl;
  blocks = refl;
  free = refl;
  usable = tt;
  counted = λ page. omega arith;
}

page_there : Supply base one_taken blank
page_there = record { answered = takes_page; aligned = refl; nonnull = ground arith }

desc_alloc-Served_example :
    (block : ℕ) × (after : Pool) × (desc_alloc 2 blank ≡ (ok block, after))
    × Served block blank after
desc_alloc-Served_example = desc_alloc-Served 2 base one_taken blank blank-IsWell page_there

-- A pool whose page has two free blocks left.
abbrev two_left : Pool
two_left = record {
  desc = record {
    block_size = 32;
    blocks_per_arena = blocks_for 32;
    free_list = (base + 64) ∷ (base + 32) ∷ [];
    allocated = 3968;
    free = 64;
    total = 4096;
  };
  headers = λ page. record { magic = arena_magic; free_cnt = 2; desc = some 2 };
  pages = one_taken;
}

two_left-IsWell : IsWell two_left
unfolding page_of
two_left-IsWell = record {
  index = 2;
  index_fits = omega arith;
  size = refl;
  blocks = refl;
  free = refl;
  usable = (
    record { nonnull = ground arith; magic = refl; desc = refl; aligned = refl },
    (record { nonnull = ground arith; magic = refl; desc = refl; aligned = refl }, tt),
  );
  counted = λ page. ground arith;
}

desc_dealloc-take_block_example :
    (mid after : Pool) × (take_block two_left ≡ (ok (base + 64), mid))
    × (desc_dealloc (base + 64) mid ≡ (ok tt, after))
    × (after.desc ≡ two_left.desc)
    × ((page : ℕ) → after.headers page ≡ two_left.headers page)
desc_dealloc-take_block_example =
    desc_dealloc-take_block (base + 64) ((base + 32) ∷ []) two_left two_left-IsWell refl
