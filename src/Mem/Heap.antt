-- ===== src/Mem/Heap.antt =====
-- src/mem/malloc.rs: the heap of the kernel, eight pools of blocks and, for what fits in none, the
-- pages of Mem.Buddy.
pub mod Classes
pub mod Spilling
mod Tests
use tacos.Prelude.{
  ℕ, zero, suc, ◌+◌, ◌-◌, ◌*◌, ◌/◌, ◌%◌, ◌^◌, max, Bool, List, [], ◌∷◌, length, get_or, set, leb,
  ltb, ◌==◌, ◌&&◌, if◌then◌else◌,
}
use tacos.Prelude.Outcome.{Outcome, ok, panic, Exec}
use tacos.Prelude.Run.{◌>>=◌, ◌>>◌}
use tacos.Mem.Words.{trailing_zeros}
use tacos.Mem.Buddy.{Buddy, page_size, order_of, alloc, dealloc}
use tacos.Mem.Arena.{Arena, Desc, Pool, max_blksize, new_desc, desc_alloc, desc_dealloc}

-- `Layout` of the core library: the size and the alignment of a request.
pub record Layout : Type 0 where
  pub size : ℕ
  pub align : ℕ

-- `headers` and `pages` are the memory and the page allocator that the heap uses.
pub record Heap : Type 0 where
  pub descs : List Desc
  pub spilled_alloc : ℕ
  pub spilled_total : ℕ
  pub headers : ℕ → Arena
  pub pages : Buddy

-- `core::array::from_fn::<_, 8, _>(|idx| Mutex::new(Desc::new(1 << (idx + 3))))`
unfoldable pub descs_from : ℕ → ℕ → List Desc
descs_from zero idx = []
descs_from (suc n) idx = new_desc (2 ^ (idx + 3)) ∷ descs_from n (idx + 1)

unfoldable pub new_heap : (ℕ → Arena) → Buddy → Heap
unfolding descs_from
new_heap headers pages = record {
  descs = descs_from 8 0;
  spilled_alloc = 0;
  spilled_total = 0;
  headers = headers;
  pages = pages;
}

-- `n.next_power_of_two()`
abbrev pub next_power_of_two : ℕ → ℕ
next_power_of_two n = 2 ^ order_of n

-- `n.is_power_of_two()`
unfoldable pub is_power_of_two : ℕ → Bool
unfolding trailing_zeros
is_power_of_two n = n == 2 ^ trailing_zeros n

unfoldable pub rounded : Layout → ℕ
rounded layout = max (next_power_of_two layout.size) layout.align

-- `size.trailing_zeros().saturating_sub(3)`
unfoldable pub desc_index : ℕ → ℕ
unfolding trailing_zeros
desc_index size = trailing_zeros size - 3

-- `self.descs[i].lock()`, and what is done to the descriptor.
unfoldable pub on_desc : {A : Type 0} → ℕ → Exec Pool A → Exec Heap A
on_desc i run h =
    if ltb i (length h.descs)
    then (let (r, p) =
          run (record {
            desc = get_or h.descs i (new_desc 8);
            headers = h.headers;
            pages = h.pages;
          }) in
        (r, record h { descs = set h.descs i p.desc; headers = p.headers; pages = p.pages }))
    else (panic, h)

unfoldable pub on_pages : {A : Type 0} → Exec Buddy A → Exec Heap A
on_pages run h = let (r, pages) = run h.pages in (r, record h { pages = pages })

unfoldable pub pages_for : ℕ → ℕ
pages_for size = (size + page_size - 1) / page_size

-- `fetch_add` and `fetch_sub` on the two counters wrap around.
abbrev pub add_spilled : ℕ → ℕ → Exec Heap Unit
add_spilled size pages h = (
  ok tt,
  record h {
    spilled_alloc = (h.spilled_alloc + size) % 2 ^ 64;
    spilled_total = (h.spilled_total + pages) % 2 ^ 64;
  },
)

abbrev pub sub_spilled : ℕ → ℕ → Exec Heap Unit
sub_spilled size pages h = (
  ok tt,
  record h {
    spilled_alloc = (h.spilled_alloc + (2 ^ 64 - size)) % 2 ^ 64;
    spilled_total = (h.spilled_total + (2 ^ 64 - pages)) % 2 ^ 64;
  },
)

-- `Heap::alloc`. `NonNull::dangling()` of a pointer to bytes is the address 1.
unfoldable pub heap_alloc : Layout → Exec Heap ℕ
heap_alloc layout h =
    if layout.size == 0
    then (ok 1, h)
    else (if is_power_of_two layout.align && leb layout.align page_size
        then (if leb (rounded layout) max_blksize
            then on_desc (desc_index (rounded layout)) (desc_alloc (desc_index (rounded layout))) h
            else (add_spilled (rounded layout) (pages_for layout.size)
                  >> on_pages (alloc (pages_for layout.size)))
                h)
        else (panic, h))

-- `Heap::dealloc`
unfoldable pub heap_dealloc : ℕ → Layout → Exec Heap Unit
heap_dealloc ptr layout h =
    if ptr == 0
    then (ok tt, h)
    else (if leb (rounded layout) max_blksize
        then on_desc (desc_index (rounded layout)) (desc_dealloc ptr) h
        else (sub_spilled (rounded layout) (pages_for layout.size)
              >> (λ h. if ptr % page_size == 0 then (ok tt, h) else (panic, h))
              >> on_pages (dealloc ptr (pages_for layout.size)))
            h)

abbrev pub sum_of : (Desc → ℕ) → List Desc → ℕ
sum_of f [] = 0
sum_of f (d ∷ ds) = f d + sum_of f ds

abbrev pub heap_free : Heap → ℕ
heap_free h = sum_of (λ d. d.free) h.descs

abbrev pub heap_allocated : Heap → ℕ
heap_allocated h = sum_of (λ d. d.allocated) h.descs + h.spilled_alloc

abbrev pub heap_total : Heap → ℕ
heap_total h = sum_of (λ d. d.total) h.descs + h.spilled_total * page_size
