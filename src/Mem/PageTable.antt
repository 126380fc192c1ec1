-- ===== src/Mem/PageTable.antt =====
-- src/mem/pagetable.rs: the three levels of page tables. A table is the address of its page in the
-- kernel's half of the memory; the state holds the entries of the tables and the heap that the pages
-- of new tables come from.
pub mod Links
pub mod Filling
pub mod Mapping
pub mod Sample
mod Tests
use tacos.Prelude.{
  ℕ, zero, suc, ◌+◌, ◌-◌, ◌*◌, ◌/◌, ◌%◌, ◌^◌, Bool, true, false, Option, none, some, leb, ltb, ◌==◌,
  ◌&&◌, if◌then◌else◌,
}
use tacos.Prelude.Outcome.{Outcome, ok, panic, Exec, pure}
use tacos.Prelude.Run.{◌>>=◌, ◌>>◌}
use tacos.Mem.Buddy.{page_size}
use tacos.Mem.Heap.{Heap, heap_alloc}
use tacos.Mem.Entry.{new_entry, pa_of, is_valid, contains, flag_v, flag_g}

-- `VM_OFFSET` of mem/layout.rs
abbrev pub vm_offset : ℕ
vm_offset = 18446743798831644672

abbrev pub nentry : ℕ
nentry = 512

pub record Paging : Type 0 where
  pub heap : Heap
  pub entries : ℕ → ℕ → ℕ

-- `PhysAddr::into_va`
abbrev pub into_va : ℕ → ℕ
into_va pa = pa + vm_offset

-- `PhysAddr::from`, of an address of 64 bits: the bits of `VM_OFFSET` are the highest, so they are
-- all set where the address is no less than it.
abbrev pub phys_addr : ℕ → Exec Paging ℕ
phys_addr va p = if leb vm_offset va then (ok (va - vm_offset), p) else (panic, p)

-- `PageTable::px`
unfoldable pub px : ℕ → ℕ → ℕ
px level va = (va / 2 ^ (12 + 9 * level)) % nentry

-- `PageTable::from_raw`, with its assertion.
unfoldable pub from_raw : ℕ → Exec Paging ℕ
from_raw at p = if at % page_size == 0 then (ok at, p) else (panic, p)

unfoldable pub write_entry : ℕ → ℕ → ℕ → (ℕ → ℕ → ℕ) → ℕ → ℕ → ℕ
write_entry table index value entries t i = if table == t && index == i then value else entries t i

unfoldable pub zero_table : ℕ → (ℕ → ℕ → ℕ) → ℕ → ℕ → ℕ
zero_table table entries t i = if table == t then 0 else entries t i

-- `kalloc(PG_SIZE, PG_SIZE)`
unfoldable pub kalloc_page : Exec Paging ℕ
kalloc_page p =
    let (r, heap) = heap_alloc (record { size = page_size; align = page_size }) p.heap in
    (r, record p { heap = heap })

-- `PageTable::new`
unfoldable pub new_table : Exec Paging ℕ
unfolding kalloc_page from_raw
new_table = kalloc_page >>= λ page.
    (λ p. (ok tt, record p { entries = zero_table page p.entries })) >> from_raw page

-- `PageTable::walk`, at an index below the number of entries, of a table at the next level: the
-- assertion of `from_raw` holds, since the address of a page is a multiple of its size.
unfoldable pub walk : ℕ → ℕ → (ℕ → ℕ → ℕ) → Option ℕ
walk table index entries =
    if is_valid (entries table index) then some (into_va (pa_of (entries table index))) else none

-- The flags of an entry that leads to a table.
abbrev pub link_flags : Bool → ℕ
link_flags is_global = if is_global then flag_v + flag_g else flag_v

-- `PageTable::walk_or_create`
unfoldable pub walk_or_create : ℕ → ℕ → Bool → Exec Paging ℕ
unfolding new_table
walk_or_create table index is_global p = elim (walk table index p.entries) [
  | some next ↦ (ok next, p)
  | none ↦
      (new_table >>= λ page. phys_addr page >>= λ pa. (λ p. (
        ok page,
        record p {
          entries = write_entry table index (new_entry pa (link_flags is_global)) p.entries;
        },
      )))
        p
]

-- One round of the loop of `map`.
unfoldable pub map_page : ℕ → ℕ → ℕ → ℕ → Exec Paging Unit
map_page table pa va flags = walk_or_create table (px 2 va) (contains flags flag_g) >>= λ l1_table.
    walk_or_create l1_table (px 1 va) (contains flags flag_g) >>= λ l0_table. λ p.
      (ok tt, record p { entries = write_entry l0_table (px 0 va) (new_entry pa flags) p.entries })

-- `while pa < pa_end`, by the rounds left.
pub map_from : ℕ → ℕ → ℕ → ℕ → ℕ → Exec Paging Unit
unfolding map_page
map_from zero table pa va flags = pure tt
map_from (suc rounds) table pa va flags =
    map_page table pa va flags >> map_from rounds table (pa + page_size) (va + page_size) flags

-- `PageTable::map`; the loop makes a round for each page that the size begins.
unfoldable pub map : ℕ → ℕ → ℕ → ℕ → ℕ → Exec Paging Unit
unfolding map_from
map table pa va size flags p =
    if pa % page_size == 0 && va % page_size == 0
    then map_from ((size + page_size - 1) / page_size) table pa va flags p
    else (panic, p)

-- `PageTable::get_pte`
unfoldable pub get_pte : ℕ → ℕ → (ℕ → ℕ → ℕ) → Option ℕ
get_pte table va entries = elim (walk table (px 2 va) entries) [
  | none ↦ none
  | some l1_table ↦ elim (walk l1_table (px 1 va) entries) [
    | none ↦ none
    | some l0_table ↦ some (entries l0_table (px 0 va))
  ]
]

-- `KernelPgTable::clone`
unfoldable pub clone : ℕ → Exec Paging ℕ
clone kernel = new_table >>= λ other. λ p. (
  ok other,
  record p {
    entries = λ t i. if t == other && ltb i nentry then p.entries kernel i else p.entries t i;
  },
)
