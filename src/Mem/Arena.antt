-- ===== src/Mem/Arena.antt =====
-- src/mem/malloc.rs: pools of memory blocks of one size, cut out of pages. A free list is the list of
-- the addresses that its chain in memory holds (Mem.FreeList), first item first.
pub mod Bounds
pub mod Pools
pub mod Returning
pub mod Cutting
pub mod Refilling
mod Tests
use tacos.Prelude.{
  not, ℕ, zero, suc, ◌+◌, ◌-◌, ◌*◌, ◌/◌, ◌%◌, max, Bool, true, false, Option, none, some, List, [],
  ◌∷◌, map, leb, ltb, ◌==◌, ◌&&◌, if◌then◌else◌,
}
use tacos.Prelude.Outcome.{Outcome, ok, panic, Exec, pure, crash}
use tacos.Prelude.Run.{◌>>=◌, ◌>>◌}
use tacos.Mem.Words.{round_up}
use tacos.Mem.Buddy.{Buddy, page_size, alloc}

abbrev pub arena_magic : ℕ
arena_magic = 2589232877

abbrev pub max_blksize : ℕ
max_blksize = 1024

-- The header of a page of blocks; `desc` is the index of the descriptor that it points to, `none` for
-- the null pointer.
pub record Arena : Type 0 where
  pub magic : ℕ
  pub free_cnt : ℕ
  pub desc : Option ℕ

pub record Desc : Type 0 where
  pub block_size : ℕ
  pub blocks_per_arena : ℕ
  pub free_list : List ℕ
  pub allocated : ℕ
  pub free : ℕ
  pub total : ℕ

-- `size_of::<Arena>()` and `size_of::<Desc>()`, on a machine of 64 bits.
abbrev pub size_of_arena : ℕ
size_of_arena = 16

abbrev pub size_of_desc : ℕ
size_of_desc = 48

unfoldable pub blocks_for : ℕ → ℕ
unfolding round_up
blocks_for block_size = (page_size - round_up size_of_desc block_size) / block_size

unfoldable pub new_desc : ℕ → Desc
unfolding blocks_for
new_desc block_size = record {
  block_size = block_size;
  blocks_per_arena = blocks_for block_size;
  free_list = [];
  allocated = 0;
  free = 0;
  total = 0;
}

-- A descriptor, with the headers that the memory holds at the addresses of pages, and the pages.
pub record Pool : Type 0 where
  pub desc : Desc
  pub headers : ℕ → Arena
  pub pages : Buddy

-- `blk & !PG_MASK`
unfoldable pub page_of : ℕ → ℕ
page_of block = block - block % page_size

unfoldable pub write_header : ℕ → Arena → (ℕ → Arena) → ℕ → Arena
write_header page arena headers at = elim (page == at) [ true ↦ arena | false ↦ headers at ]

abbrev pub is_present : {A : Type 0} → Option A → Bool
is_present none = false
is_present (some a) = true

-- `Arena::from_block`: the page of the block, once its header has passed the assertions. The
-- descriptor that the header points to is the one at hand.
unfoldable pub from_block : ℕ → Exec Pool ℕ
unfolding page_of
from_block block p =
    let arena = p.headers (page_of block) in
    if not (page_of block == 0)
      && (arena.magic == arena_magic && (is_present arena.desc && block % p.desc.block_size == 0))
    then (ok (page_of block), p)
    else (panic, p)

-- The address of the block at an index.
unfoldable pub block_at : ℕ → ℕ → ℕ → ℕ
unfolding round_up
block_at block_size page idx = page + round_up size_of_arena block_size + idx * block_size

-- `Arena::get_block`, of the arena at `page`.
unfoldable pub get_block : ℕ → ℕ → Exec Pool ℕ
unfolding block_at
get_block page idx p =
    if (p.headers page).magic == arena_magic
      && (ltb idx p.desc.blocks_per_arena && page % page_size == 0)
    then (ok (block_at p.desc.block_size page idx), p)
    else (panic, p)

abbrev pub push_free : ℕ → Exec Pool Unit
push_free block p =
    (ok tt, record p { desc = record (p.desc) { free_list = block ∷ p.desc.free_list } })

-- `for i in 0..self.blocks_per_arena`, by the rounds left.
pub push_blocks : ℕ → ℕ → ℕ → Exec Pool Unit
unfolding get_block
push_blocks zero i page = pure tt
push_blocks (suc rounds) i page =
    get_block page i >>= λ block. push_free block >> push_blocks rounds (i + 1) page

-- `Palloc::alloc(1)`
unfoldable pub alloc_page : Exec Pool ℕ
alloc_page p = let (r, pages) = alloc 1 p.pages in (r, record p { pages = pages })

-- The header of a fresh page, for the descriptor of index `self`.
abbrev pub set_arena : ℕ → ℕ → Exec Pool Unit
set_arena self page p = (
  ok tt,
  record p {
    headers =
        write_header page
          (record { magic = arena_magic; free_cnt = p.desc.blocks_per_arena; desc = some self })
          p.headers;
  },
)

abbrev pub count_arena : Exec Pool Unit
count_arena p = (
  ok tt,
  record p {
    desc = record (p.desc) {
      total = p.desc.total + page_size;
      free = p.desc.free + p.desc.block_size * p.desc.blocks_per_arena;
    };
  },
)

-- What `Desc::alloc` does when the free list is empty.
unfoldable pub refill : ℕ → Exec Pool Unit
unfolding alloc_page push_blocks
refill self = alloc_page >>= λ page.
    set_arena self page >> (λ p. push_blocks p.desc.blocks_per_arena 0 page p) >> count_arena

-- A subtraction of unsigned numbers panics where it would fall below 0.
abbrev pub count_alloc : Exec Pool Unit
count_alloc p =
    if leb p.desc.block_size p.desc.free
    then (
      ok tt,
      record p {
        desc = record (p.desc) {
          allocated = p.desc.allocated + p.desc.block_size;
          free = p.desc.free - p.desc.block_size;
        };
      },
    )
    else (panic, p)

abbrev pub pop_free : Exec Pool ℕ
pop_free p = elim p.desc.free_list [
  | [] ↦ (panic, p)
  | block ∷ rest ↦ (ok block, record p { desc = record (p.desc) { free_list = rest } })
]

abbrev pub take_count : ℕ → Exec Pool Unit
take_count page p =
    let arena = p.headers page in
    if leb 1 arena.free_cnt
    then (
      ok tt,
      record p {
        headers = write_header page (record arena { free_cnt = arena.free_cnt - 1 }) p.headers;
      },
    )
    else (panic, p)

-- What `Desc::alloc` does when the free list holds a block.
unfoldable pub take_block : Exec Pool ℕ
unfolding from_block
take_block =
    count_alloc >> pop_free >>= λ block. from_block block >>= λ page. take_count page >> pure block

unfoldable pub desc_alloc : ℕ → Exec Pool ℕ
unfolding refill take_block
desc_alloc self p = elim p.desc.free_list [
  | [] ↦ (refill self >> take_block) p
  | block ∷ rest ↦ take_block p
]

abbrev pub count_dealloc : Exec Pool Unit
count_dealloc p =
    if leb p.desc.block_size p.desc.allocated
    then (
      ok tt,
      record p {
        desc = record (p.desc) {
          allocated = p.desc.allocated - p.desc.block_size;
          free = p.desc.free + p.desc.block_size;
        };
      },
    )
    else (panic, p)

abbrev pub give_count : ℕ → Exec Pool Unit
give_count page p =
    let arena = p.headers page in
    (
      ok tt,
      record p {
        headers = write_header page (record arena { free_cnt = arena.free_cnt + 1 }) p.headers;
      },
    )

unfoldable pub desc_dealloc : ℕ → Exec Pool Unit
unfolding from_block
desc_dealloc block =
    push_free block >> count_dealloc >> from_block block >>= λ page. give_count page
