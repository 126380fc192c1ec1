-- ===== src/Process/Load.antt =====
-- A segment of one page, from the executable to the page table of the process.
use tacos.Prelude.{
  ℕ, ◌+◌, ◌-◌, ◌*◌, ◌/◌, ◌%◌, ◌≤◌, ◌<◌, ◌≡◌, ◌≢◌, List, length, get_or, some, if◌then◌else◌,
}
use tacos.Prelude.Outcome.{Outcome}
use tacos.Mem.Buddy
use tacos.Mem.Buddy.{Buddy}
use tacos.Mem.PageTable.{get_pte}
use tacos.Process.{Segment, UserMemory}

-- What loading a segment of one page leaves: at the page of its address, a page of the pool for a user
-- to read, and to execute and to write where the segment says so, with the bytes of the file at the
-- place of the segment and zeros behind them.
pub record Loaded (filebuf : List ℕ) (seg : Segment) (buf : ℕ) (pool : Buddy) (m after : UserMemory)
    : Type 0 where
  pub mapped :
      get_pte m.table (seg.vaddr - seg.vaddr % 4096) after.paging.entries
      ≡ some (
          (buf - 18446743798831644672) / 4096 * 1024
          + (19 + (if seg.executable then 8 else 0) + (if seg.writable then 4 else 0)))
  pub from_file :
      (j : ℕ)
      → j < seg.filesz
      → get_or (after.contents buf) (seg.vaddr % 4096 + j) 0 ≡ get_or filebuf (seg.offset + j) 0
  pub zeros : (j : ℕ) → seg.filesz ≤ j → get_or (after.contents buf) (seg.vaddr % 4096 + j) 0 ≡ 0
  pub page_size : length (after.contents buf) ≡ 4096
  pub others : (a : ℕ) → a ≢ buf → after.contents a ≡ m.contents a
  pub pool_lem : after.pool ≡ pool
  pub table : after.table ≡ m.table
