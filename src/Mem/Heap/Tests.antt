-- ===== src/Mem/Heap/Tests.antt =====
-- Requests to a heap on one free chunk of 256 pages.
use tacos.Prelude.{ℕ, ◌^◌, ◌<◌, ◌≡◌, refl, true, none, length, arith}
use tacos.Prelude.Outcome.{ok}
use tacos.Mem.Buddy.{order_of, alloc}
use tacos.Mem.Buddy.Cover.{cover}
use tacos.Mem.Buddy.Sample.{base, one_chunk, one_taken, takes_page}
use tacos.Mem.Heap.{
  Layout, Heap, new_heap, rounded, is_power_of_two, pages_for, heap_alloc, heap_dealloc,
}
use tacos.Mem.Heap.Spilling.{heap_dealloc-heap_alloc}

abbrev odd_size : Layout
odd_size = record { size = 24; align = 8 }

abbrev whole_page : Layout
whole_page = record { size = 4096; align = 4096 }

abbrev heap_start : Heap
heap_start = new_heap (λ page. record { magic = 0; free_cnt = 0; desc = none }) one_chunk

page_big : 1024 < rounded whole_page
unfolding rounded order_of
page_big = omega arith

page_rounded : rounded whole_page < 2 ^ 64
unfolding rounded order_of
page_rounded = omega arith

page_power : is_power_of_two 4096 ≡ true
unfolding is_power_of_two
page_power = refl

one_page : alloc (pages_for 4096) heap_start.pages ≡ (ok base, one_taken)
unfolding pages_for new_heap
one_page = takes_page

nine_lists : length heap_start.pages.free_lists ≡ 9
unfolding new_heap
nine_lists = refl

nothing_spilled : heap_start.spilled_alloc < 2 ^ 64
unfolding new_heap
nothing_spilled = omega arith

no_page_spilled : heap_start.spilled_total < 2 ^ 64
unfolding new_heap
no_page_spilled = omega arith

heap_dealloc-heap_alloc_example :
    (mid after : Heap) × (heap_alloc whole_page heap_start ≡ (ok base, mid))
    × (heap_dealloc base whole_page mid ≡ (ok tt, after))
    × (after.spilled_alloc ≡ heap_start.spilled_alloc)
    × (after.spilled_total ≡ heap_start.spilled_total)
    × (after.descs ≡ heap_start.descs)
    × (after.headers ≡ heap_start.headers)
    × ((a : ℕ) → cover after.pages a ≡ cover heap_start.pages a)
heap_dealloc-heap_alloc_example =
    heap_dealloc-heap_alloc whole_page base one_taken heap_start (ground arith) page_power
      (omega arith) page_big (omega arith) nothing_spilled no_page_spilled page_rounded nine_lists
      one_page refl (ground arith)
