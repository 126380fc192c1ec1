-- ===== src/Process.antt =====
-- src/userproc/load.rs: loading the segments of an executable into the pages of a user process. The
-- header of a segment is what the ELF library has parsed. `load_segment` takes how a page is allocated,
-- filled and mapped as a function, so that a load is a sequence of installed pages; `install_page` is
-- that function in the kernel (`UserPool::alloc_pages` and `PageTable::map`).
pub mod Contents
pub mod Install
pub mod Load
mod Tests
use tacos.Prelude.{
  ℕ, zero, suc, ◌+◌, ◌-◌, ◌*◌, ◌/◌, ◌%◌, ◌^◌, Bool, true, false, ◌&&◌, List, [], ◌∷◌, ◌++◌, length,
  take, drop, replicate, min, ltb, leb, ◌==◌, if◌then◌else◌,
}
use tacos.Prelude.Outcome.{Outcome, ok, panic, Exec, pure}
use tacos.Prelude.Run.{◌>>=◌, ◌>>◌}
use tacos.Mem.Buddy
use tacos.Mem.Buddy.{Buddy}
use tacos.Mem.PageTable
use tacos.Mem.PageTable.{Paging, phys_addr}
use tacos.Mem.Entry.{flag_v, flag_r, flag_w, flag_x, flag_u}

abbrev pub pg_size : ℕ
pg_size = 4096

abbrev pub address_mod : ℕ
address_mod = 2 ^ 64

-- `ProgramHeaderEntry`
pub record Segment : Type 0 where
  pub offset : ℕ
  pub vaddr : ℕ
  pub filesz : ℕ
  pub memsz : ℕ
  pub executable : Bool
  pub writable : Bool

abbrev pub leaf_flag : Segment → ℕ
leaf_flag s =
    flag_v
    + flag_u
    + flag_r
    + (if s.executable then flag_x else 0)
    + (if s.writable then flag_w else 0)

-- `x & !PG_MASK`
abbrev pub page_floor : ℕ → ℕ
page_floor x = x / pg_size * pg_size

abbrev pub page_off : Segment → ℕ
page_off s = s.vaddr % pg_size

-- How many pages the segment takes (`div_round_up`), and how many bytes of the file are read.
abbrev pub page_count : Segment → ℕ
page_count s = (page_off s + s.memsz + pg_size - 1) / pg_size

abbrev pub read_bytes : Segment → ℕ
read_bytes s = s.filesz + page_off s

abbrev pub zero_fill : ℕ → List ℕ
zero_fill n = replicate n 0

-- The contents of a page: the bytes read, and zeros behind them.
abbrev pub page_contents : List ℕ → ℕ → ℕ → List ℕ
page_contents filebuf readpos readsz =
    take readsz (drop readpos filebuf) ++ zero_fill (pg_size - readsz)

-- Sums of 64 bits that do not fit panic.
abbrev pub sums_fit : Segment → Bool
sums_fit s = ltb (page_off s + s.memsz + pg_size - 1) address_mod && ltb (read_bytes s) address_mod

-- `install` allocates a page, fills it with these contents, and maps it to this address.
module _ {S : Type 0} (install : ℕ → ℕ → List ℕ → Exec S Unit) where
  -- The loop over the pages, which answers the bytes that are left to read. The slice of the file
  -- panics out of its range.
  pub load_pages : List ℕ → ℕ → ℕ → ℕ → ℕ → ℕ → Exec S ℕ
  load_pages filebuf flag zero uaddr readpos readbytes s = (ok readbytes, s)
  load_pages filebuf flag (suc pages) uaddr readpos readbytes s =
      let readsz = min readbytes pg_size in
      if leb (readpos + readsz) (length filebuf) && ltb uaddr address_mod
      then (install flag uaddr (page_contents filebuf readpos readsz)
            >> load_pages filebuf flag pages (uaddr + pg_size) (readpos + readsz)
                (readbytes - readsz))
          s
      else (panic, s)

  -- The assertion at the end.
  abbrev pub all_read : ℕ → Exec S Unit
  all_read readbytes s = if readbytes == 0 then (ok tt, s) else (panic, s)

  -- `load_segment`
  unfoldable pub load_segment : List ℕ → Segment → Exec S Unit
  unfolding load_pages
  load_segment filebuf seg s =
      if (seg.offset % pg_size == page_off seg) && sums_fit seg
      then (load_pages filebuf (leaf_flag seg) (page_count seg) (page_floor seg.vaddr)
              (page_floor seg.offset) (read_bytes seg)
            >>= all_read)
          s
      else (panic, s)

-- The kernel's memory as the loader uses it: the pool of user pages, the page tables, the contents of
-- user pages by their address, and the root table of the process.
pub record UserMemory : Type 0 where
  pub pool : Buddy
  pub paging : Paging
  pub contents : ℕ → List ℕ
  pub table : ℕ

abbrev pub on_pool : {A : Type 0} → Exec Buddy A → Exec UserMemory A
on_pool run m = let (r, pool) = run m.pool in (r, record m { pool = pool })

abbrev pub on_paging : {A : Type 0} → Exec Paging A → Exec UserMemory A
on_paging run m = let (r, paging) = run m.paging in (r, record m { paging = paging })

abbrev pub fill_page : ℕ → List ℕ → Exec UserMemory Unit
fill_page at page m = (ok tt, record m { contents = λ a. if at == a then page else m.contents a })

-- The pages of the loop: `UserPool::alloc_pages(1)`, the copy, and `pagetable.map(buf.into(), uaddr, 1,
-- leaf_flag)`.
unfoldable pub install_page : ℕ → ℕ → List ℕ → Exec UserMemory Unit
install_page flag uaddr page m =
    (on_pool (Buddy.alloc 1) >>= λ buf. fill_page buf page >> on_paging (phys_addr buf) >>= λ pa.
    on_paging (PageTable.map m.table pa uaddr 1 flag))
      m

-- `init_user_stack`
unfoldable pub init_user_stack : ℕ → Exec UserMemory Unit
init_user_stack init_sp m =
    if init_sp % pg_size == 0
    then (on_pool (Buddy.alloc 1) >>= λ stack_va. on_paging (phys_addr stack_va) >>= λ stack_pa.
          on_paging (
            PageTable.map m.table stack_pa (page_floor (init_sp - 1)) pg_size
              (flag_v + flag_r + flag_w + flag_u)))
        m
    else (panic, m)
