-- ===== src/Process/Install.antt =====
-- `install_page`: a page of the pool is filled, and found at its address in the page table.
use tacos.Prelude.{
  ℕ, ◌+◌, ◌-◌, ◌*◌, ◌/◌, ◌%◌, ◌^◌, ◌≤◌, ◌<◌, ◌≡◌, ◌≢◌, refl, ap, ◌∙◌, true, false, List, leb, ◌==◌,
  some, arith, if◌then◌else◌,
}
use tacos.Prelude.Outcome.{ok, Exec}
use tacos.Prelude.Run.{bind-ok, then-ok}
use tacos.Mem.Buddy
use tacos.Mem.Buddy.{Buddy}
use tacos.Mem.PageTable
use tacos.Mem.PageTable.{Paging, vm_offset, phys_addr, get_pte, walk_or_create}
use tacos.Mem.PageTable.Mapping.{get_pte-map}
use tacos.Mem.Entry.{contains, flag_g}
use tacos.Process.{UserMemory, on_pool, on_paging, install_page}

phys_addr-ok : (va : ℕ) (p : Paging) → vm_offset ≤ va → phys_addr va p ≡ (ok (va - vm_offset), p)
phys_addr-ok va p h = let high : leb vm_offset va ≡ true = ground arith in rw high refl

on_paging-ok :
    {A : Type 0} (run : Exec Paging A) (m : UserMemory) {a : A} {p : Paging}
    → run m.paging ≡ (ok a, p)
    → on_paging run m ≡ (ok a, record m { paging = p })
on_paging-ok run m e = rw e refl

on_pool-ok :
    {A : Type 0} (run : Exec Buddy A) (m : UserMemory) {a : A} {b : Buddy}
    → run m.pool ≡ (ok a, b)
    → on_pool run m ≡ (ok a, record m { pool = b })
on_pool-ok run m e = rw e refl

-- The page that the pool answers holds the contents, the others what they held.
pub record Holds (buf : ℕ) (page : List ℕ) (pool : Buddy) (m after : UserMemory) : Type 0 where
  pub filled : after.contents buf ≡ page
  pub others : (a : ℕ) → a ≢ buf → after.contents a ≡ m.contents a
  pub pool_lem : after.pool ≡ pool
  pub table : after.table ≡ m.table

module _ (m : UserMemory) (uaddr flag buf l1 l0 : ℕ) (pool : Buddy) (p1 p2 : Paging)
    (answers : Buddy.alloc 1 m.pool ≡ (ok buf, pool)) (high : vm_offset ≤ buf)
    (below : buf < 2 ^ 64) (aligned : buf % 4096 ≡ 0)
    (first : walk_or_create m.table (uaddr / 1073741824 % 512) (contains flag flag_g) m.paging
      ≡ (ok l1, p1))
    (second : walk_or_create l1 (uaddr / 2097152 % 512) (contains flag flag_g) p1 ≡ (ok l0, p2))
    (h1 : l1 < 2 ^ 64) (h0 : l0 < 2 ^ 64) (d1 : l1 ≢ m.table) (d2 : l0 ≢ m.table) (d3 : l0 ≢ l1)
    (to_page : uaddr % 4096 ≡ 0) (small : flag < 256) where
  pub install_page-Holds :
      (page : List ℕ)
      → (after : UserMemory) × (install_page flag uaddr page m ≡ (ok tt, after))
        × Holds buf page pool m after
        × (get_pte m.table uaddr after.paging.entries
            ≡ some ((buf - vm_offset) / 4096 * 1024 + flag))
  unfolding install_page
  install_page-Holds page =
      let pa = buf - vm_offset in
      let (paging, maps, found) =
        get_pte-map m.table l1 l0 pa uaddr 1 flag m.paging p1 p2 first second h1 h0 d1 d2 d3
          (omega arith) to_page (omega arith) (omega arith) (omega arith) small in
      let (entry, _, _, _) = found 0 (omega arith) in
      let taken : UserMemory = record m { pool = pool } in
      let filled : UserMemory = record taken {
        contents = λ a. if buf == a then page else m.contents a;
      } in
      let after : UserMemory = record filled { paging = paging } in
      (
        after,
        bind-ok _ _ {s' = taken} {a = buf} (on_pool-ok (Buddy.alloc 1) m answers) (
            then-ok _ _ {s' = filled} refl (
              bind-ok _ _ {s' = filled} {a = pa}
                (on_paging-ok (phys_addr buf) filled (phys_addr-ok buf m.paging high))
                (on_paging-ok (PageTable.map m.table pa uaddr 1 flag) filled maps))),
        record {
          filled = let self : (buf == buf) ≡ true = ground arith in rw self refl;
          others = λ a ne. let other : (buf == a) ≡ false = ground arith in rw other refl;
          pool_lem = refl;
          table = refl;
        },
        ap (λ a. get_pte m.table a paging.entries) (omega arith) ∙ entry ∙ ap some (omega arith),
      )
