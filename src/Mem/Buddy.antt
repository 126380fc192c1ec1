-- ===== src/Mem/Buddy.antt =====
-- src/mem/palloc.rs: the buddy allocator of pages. A free list is the list of the addresses that its
-- chain in memory holds (Mem.FreeList), first item first.
pub mod Cover
pub mod Splitting
pub mod Orders
pub mod Inserting
pub mod Allocation
pub mod Buddies
pub mod Merging
pub mod Ownership
pub mod Sample
mod Tests
use tacos.Prelude.{
  not, ℕ, zero, suc, ◌+◌, ◌-◌, ◌*◌, ◌/◌, ◌%◌, ◌^◌, min, Bool, true, false, Option, none, some, List,
  [], ◌∷◌, length, get_or, set, replicate, leb, ltb, ◌==◌, ◌&&◌, not, if◌then◌else◌,
}
use tacos.Prelude.Outcome.{Outcome, ok, panic, Exec, pure, crash}
use tacos.Prelude.Run.{◌>>=◌, ◌>>◌}
use tacos.Mem.Words.{trailing_zeros, prev_power_of_two, round_up, round_down}
use tacos.Mem.FreeList.Chains.{delete, elem}

abbrev pub max_order : ℕ
max_order = 8

abbrev pub page_size : ℕ
page_size = 4096

-- The bytes of a chunk of order `k`, `(1 << k) * PG_SIZE`.
unfoldable pub chunk : ℕ → ℕ
chunk zero = page_size
chunk (suc k) = 2 * chunk k

pub record Buddy : Type 0 where
  pub free_lists : List (List ℕ)
  pub total : ℕ
  pub allocated : ℕ

abbrev pub empty : Buddy
empty = record { free_lists = replicate (suc max_order) []; total = 0; allocated = 0 }

-- `n.next_power_of_two().trailing_zeros()`, of `n` below 2 ^ 63: the first of the exponents from `k`
-- on whose power is no less than `n`.
pub order_from : ℕ → ℕ → ℕ → ℕ
order_from zero k n = k
order_from (suc fuel) k n = elim (leb n (2 ^ k)) [ true ↦ k | false ↦ order_from fuel (k + 1) n ]

unfoldable pub order_of : ℕ → ℕ
unfolding order_from
order_of n = order_from 64 0 n

-- `self.free_lists[order].push(block)`
unfoldable pub push_block : ℕ → ℕ → Exec Buddy Unit
push_block order block b =
    if ltb order (length b.free_lists)
    then (
      ok tt,
      record b { free_lists = set b.free_lists order (block ∷ get_or b.free_lists order []) },
    )
    else (panic, b)

-- `self.free_lists[order].pop()`
unfoldable pub pop_block : ℕ → Exec Buddy (Option ℕ)
pop_block order b =
    if ltb order (length b.free_lists)
    then (elim (get_or b.free_lists order []) [
      | [] ↦ (ok none, b)
      | block ∷ rest ↦ (ok (some block), record b { free_lists = set b.free_lists order rest })
    ])
    else (panic, b)

-- One round of the loop that splits, at `j`.
unfoldable pub split_block : ℕ → Exec Buddy Unit
unfolding push_block pop_block
split_block j = pop_block (suc j) >>= λ popped. elim popped [
  | none ↦ pure tt
  | some block ↦ push_block j (block + chunk j) >> push_block j block
]

-- `for j in (order..i).rev()`, by the rounds left: the first is at `order + rounds - 1`.
pub split_down : ℕ → ℕ → Exec Buddy Unit
unfolding split_block
split_down zero order = pure tt
split_down (suc rounds) order = split_block (order + rounds) >> split_down rounds order

-- `self.allocated += 1 << order`, which does not overflow while no more than `total` is allocated.
abbrev pub count_allocated : ℕ → Exec Buddy Unit
count_allocated order b = (ok tt, record b { allocated = b.allocated + 2 ^ order })

-- What `alloc` does once a chunk of the `rounds`-th order above is there: `unwrap` panics on nothing.
unfoldable pub take_chunk : ℕ → ℕ → Exec Buddy ℕ
unfolding split_down pop_block
take_chunk rounds order =
    split_down rounds order >> count_allocated order >> pop_block order >>= λ popped. elim popped [
      | none ↦ crash
      | some block ↦ pure block
    ]

-- `for i in order..self.free_lists.len()`, by the rounds left; `i` is `order + above`.
pub search_from : ℕ → ℕ → ℕ → Exec Buddy ℕ
unfolding take_chunk
search_from zero above order b = (panic, b)
search_from (suc rounds) above order b = elim (get_or b.free_lists (order + above) []) [
  | [] ↦ search_from rounds (above + 1) order b
  | block ∷ rest ↦ take_chunk above order b
]

unfoldable pub alloc : ℕ → Exec Buddy ℕ
unfolding search_from order_of
alloc n b =
    let order = order_of n in
    if leb n 256 then search_from (length b.free_lists - order) 0 order b else (panic, b)

-- `curr_ptr ^ (1 << (curr_order + PG_SHIFT))`: the bit of that weight is flipped.
unfoldable pub buddy_of : ℕ → ℕ → ℕ
buddy_of order block =
    if (block / chunk order) % 2 == 0 then block + chunk order else block - chunk order

-- One merge: the node of the buddy is taken off the list, wherever it stands, the block itself off
-- the front, and the two are put on the next list as one.
unfoldable pub merge_pair : ℕ → ℕ → ℕ → Exec Buddy Unit
unfolding push_block pop_block
merge_pair order block buddy =
    (λ b. (
      ok tt,
      record b {
        free_lists = set b.free_lists order (delete buddy (get_or b.free_lists order []));
      },
    ))
    >> pop_block order
    >>= λ popped. push_block (suc order) (min block buddy)

-- The loop that merges: `rounds` is `MAX_ORDER - curr_order`.
pub merge_up : ℕ → ℕ → ℕ → Exec Buddy Unit
unfolding merge_pair buddy_of
merge_up zero block order b = (ok tt, b)
merge_up (suc rounds) block order b =
    let buddy = buddy_of order block in
    elim (elem buddy (get_or b.free_lists order [])) [
      | true ↦ (merge_pair order block buddy >> merge_up rounds (min block buddy) (suc order)) b
      | false ↦ (ok tt, b)
    ]

abbrev pub uncount_allocated : ℕ → Exec Buddy Unit
uncount_allocated order b =
    if leb (2 ^ order) b.allocated
    then (ok tt, record b { allocated = b.allocated - 2 ^ order })
    else (panic, b)

unfoldable pub dealloc : ℕ → ℕ → Exec Buddy Unit
unfolding merge_up order_of push_block
dealloc block n =
    let order = order_of n in
    push_block order block >> merge_up (max_order - order) block order >> uncount_allocated order

-- The order of the chunk that is put on a list for the range from `start` to `end`: `1 << 64` is an
-- overflow, and so is a subtraction below 0.
unfoldable pub order_at : ℕ → ℕ → Exec Buddy ℕ
order_at start end b =
    let size = min (2 ^ trailing_zeros start) (prev_power_of_two (end - start)) in
    if not (start == 0) && leb 12 (trailing_zeros size)
    then (ok (min (trailing_zeros size - 12) max_order), b)
    else (panic, b)

-- The loop of `insert_range`, with as fuel the pages of the range, of which each round takes one at least.
pub insert_from : ℕ → ℕ → ℕ → Exec Buddy Unit
unfolding order_at push_block
insert_from zero start end b = (ok tt, b)
insert_from (suc fuel) start end b = elim (ltb start end) [
  | true ↦
      (order_at start end >>= λ order.
      push_block order start >> insert_from fuel (start + chunk order) end)
        b
  | false ↦ (ok tt, b)
]

-- `self.total += end - start`; an overflow panics.
abbrev pub count_total : ℕ → ℕ → Exec Buddy Unit
count_total start end b =
    if leb start end && ltb (b.total + (end - start)) (2 ^ 64)
    then (ok tt, record b { total = b.total + (end - start) })
    else (panic, b)

unfoldable pub insert_range : ℕ → ℕ → Exec Buddy Unit
unfolding insert_from
insert_range start end =
    let first = round_up start page_size in
    let past = round_down end page_size in
    count_total first past >> insert_from ((past - first) / page_size) first past
