-- ===== src/Mem/Heap/Spilling.antt =====
-- Requests that fit in no pool of malloc.rs go to the page allocator.
use tacos.Prelude.{
  ℕ, ◌+◌, ◌-◌, ◌%◌, ◌^◌, ◌≤◌, ◌<◌, ◌≡◌, ◌≢◌, refl, ap, true, false, length, leb, ◌==◌,
  if◌then◌else◌, arith,
}
use tacos.Prelude.Outcome.{Outcome, ok, panic}
use tacos.Prelude.Run.{then-ok}
use tacos.Mem.Buddy.{Buddy, alloc, dealloc}
use tacos.Mem.Buddy.Cover.{cover}
use tacos.Mem.Buddy.Ownership.{dealloc-alloc_pages}
use tacos.Mem.Heap.{
  Layout, Heap, is_power_of_two, rounded, pages_for, on_pages, heap_alloc, heap_dealloc,
}

on_pages-ok :
    {A : Type 0} (run : Buddy → Outcome A × Buddy) (a : A) (pages : Buddy) (h : Heap)
    → run h.pages ≡ (ok a, pages)
    → on_pages run h ≡ (ok a, record h { pages = pages })
unfolding on_pages
on_pages-ok {A = A} run a pages h e =
    ap {A = Outcome A × Buddy} {B = Outcome A × Heap} (λ r. (r.0, record h { pages = r.1 })) e

-- The counters, after an addition and after a subtraction that undoes it.
abbrev spilled : Layout → Buddy → Heap → Heap
spilled layout pages h = record h {
  spilled_alloc = (h.spilled_alloc + rounded layout) % 2 ^ 64;
  spilled_total = (h.spilled_total + pages_for layout.size) % 2 ^ 64;
  pages = pages;
}

-- A request that is too big for the pools, of a size that is not 0 and an alignment that the heap
-- accepts, is answered by the page allocator, and counted.
pub heap_alloc-spilled :
    (layout : Layout) (block : ℕ) (left : Buddy) (h : Heap)
    → layout.size ≢ 0
    → is_power_of_two layout.align ≡ true
    → layout.align ≤ 4096
    → 1024 < rounded layout
    → alloc (pages_for layout.size) h.pages ≡ (ok block, left)
    → heap_alloc layout h ≡ (ok block, spilled layout left h)
unfolding heap_alloc
heap_alloc-spilled layout block left h some_size power small big e =
    let e1 : (layout.size == 0) ≡ false = ground arith in
    let e2 : leb layout.align 4096 ≡ true = ground arith in
    let e3 : leb (rounded layout) 1024 ≡ false = ground arith in
    rw (e1, power, e2, e3)
      (then-ok _ _ {s' = record (spilled layout left h) { pages = h.pages }} refl (
        on_pages-ok (alloc (pages_for layout.size)) block left
          (record (spilled layout left h) { pages = h.pages }) e))

pages_bound : (n : ℕ) → n ≤ 1048576 → pages_for n ≤ 256
unfolding pages_for
pages_bound n h = omega arith

-- Giving back a block of whole pages, at an address of a page that is not null, as it was allocated,
-- leaves the counters of the heap, the pools and the headers as they were, and in the page allocator the same
-- addresses free: the alignment that the request is made with is one that the heap accepts, and the
-- request is of no more than 256 pages.
pub heap_dealloc-heap_alloc :
    (layout : Layout) (block : ℕ) (left : Buddy) (h : Heap)
    → layout.size ≢ 0
    → is_power_of_two layout.align ≡ true
    → layout.align ≤ 4096
    → 1024 < rounded layout
    → layout.size ≤ 1048576
    → h.spilled_alloc < 2 ^ 64
    → h.spilled_total < 2 ^ 64
    → rounded layout < 2 ^ 64
    → length h.pages.free_lists ≡ 9
    → alloc (pages_for layout.size) h.pages ≡ (ok block, left)
    → block % 4096 ≡ 0
    → block ≢ 0
    → (mid after : Heap) × (heap_alloc layout h ≡ (ok block, mid))
      × (heap_dealloc block layout mid ≡ (ok tt, after))
      × (after.spilled_alloc ≡ h.spilled_alloc)
      × (after.spilled_total ≡ h.spilled_total)
      × (after.descs ≡ h.descs)
      × (after.headers ≡ h.headers)
      × ((a : ℕ) → cover after.pages a ≡ cover h.pages a)
unfolding heap_dealloc
heap_dealloc-heap_alloc layout block left h some_size power small big limit a_fits t_fits r_fits
      nine e aligned nonnull =
    let few : pages_for layout.size ≤ 256 = pages_bound layout.size limit in
    let (pages, runs, covers, _, _) =
      dealloc-alloc_pages (pages_for layout.size) block h.pages left few nine e in
    let mid = spilled layout left h in
    let after : Heap = record mid {
      spilled_alloc = (mid.spilled_alloc + (2 ^ 64 - rounded layout)) % 2 ^ 64;
      spilled_total = (mid.spilled_total + (2 ^ 64 - pages_for layout.size)) % 2 ^ 64;
      pages = pages;
    } in
    let e1 : (block == 0) ≡ false = ground arith in
    let e2 : (block % 4096 == 0) ≡ true = ground arith in
    let e3 : leb (rounded layout) 1024 ≡ false = ground arith in
    (
      mid,
      after,
      heap_alloc-spilled layout block left h some_size power small big e,
      rw (e1, e3)
          (then-ok _ _ {s' = record after { pages = left }} refl (
            then-ok _ _ {s' = record after { pages = left }}
              (ap
                (λ r.
                  if r
                  then (ok tt, record after { pages = left })
                  else (panic, record after { pages = left }))
                e2)
              (on_pages-ok (dealloc block (pages_for layout.size)) tt pages
                (record after { pages = left }) runs))),
      omega arith,
      omega arith,
      refl,
      refl,
      covers,
    )
