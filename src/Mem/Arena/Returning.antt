-- ===== src/Mem/Arena/Returning.antt =====
-- `Desc::dealloc` of malloc.rs.
use tacos.Prelude.{
  ℕ, suc, ◌+◌, ◌-◌, ◌*◌, ◌≤◌, ◌≡◌, refl, sym, ap, ◌∙◌, true, List, ◌∷◌, length, leb, ◌==◌,
  if◌then◌else◌, arith, inl, inr, Bool-cases,
}
use tacos.Prelude.Outcome.{ok, panic}
use tacos.Prelude.Run.{bind-ok, then-ok}
use tacos.Mem.Arena.{Arena, Desc, Pool, write_header, page_of, take_block, desc_dealloc}
use tacos.Mem.Arena.Pools.{
  Usable, IsWell, taken, IsWell-Head, from_block-ok, write_header_self, write_header_other,
  Usable-write_header, AllUsable-write_header, take_block-IsWell,
}

-- What `desc_dealloc` of a block leaves.
abbrev pub given : ℕ → Pool → Pool
given block p =
    let arena = p.headers (page_of block) in
    record p {
      desc = record (p.desc) {
        allocated = p.desc.allocated - p.desc.block_size;
        free = p.desc.free + p.desc.block_size;
        free_list = block ∷ p.desc.free_list;
      };
      headers =
          write_header (page_of block) (record arena { free_cnt = arena.free_cnt + 1 }) p.headers;
    }

desc_dealloc-given :
    (block : ℕ) (p : Pool)
    → Usable p.headers p.desc.block_size block
    → p.desc.block_size ≤ p.desc.allocated
    → desc_dealloc block p ≡ (ok tt, given block p)
unfolding desc_dealloc
desc_dealloc-given block p u h =
    let p1 : Pool = record p { desc = record (p.desc) { free_list = block ∷ p.desc.free_list } } in
    let p2 : Pool = record p1 {
      desc = record (p1.desc) {
        allocated = p.desc.allocated - p.desc.block_size;
        free = p.desc.free + p.desc.block_size;
      };
    } in
    let enough : leb p.desc.block_size p.desc.allocated ≡ true = ground arith in
    then-ok _ _ {s' = p1} refl (
      then-ok _ _ {s' = p2} (ap (λ r. if r then (ok tt, p2) else (panic, p1)) enough)
        (bind-ok _ _ (from_block-ok block p2 u) refl))

-- A block that passes the assertions, and whose size does not exceed what is counted as allocated,
-- is given back without a panic, and the pool stays well formed.
pub desc_dealloc-IsWell :
    (block : ℕ) (p : Pool)
    → IsWell p
    → Usable p.headers p.desc.block_size block
    → p.desc.block_size ≤ p.desc.allocated
    → (desc_dealloc block p ≡ (ok tt, given block p)) × IsWell (given block p)
desc_dealloc-IsWell block p w u h =
    let page = page_of block in
    let n = (p.headers page).free_cnt + 1 in
    (
      desc_dealloc-given block p u h,
      record {
        index = w.index;
        index_fits = w.index_fits;
        size = w.size;
        blocks = w.blocks;
        free = omega (arith, w.free, mul_suc p.desc.block_size (length p.desc.free_list));
        usable = (
          Usable-write_header page p.headers n p.desc.block_size block u,
          AllUsable-write_header page p.headers n p.desc.block_size p.desc.free_list w.usable,
        );
        counted = λ at. elim (Bool-cases (page == at)) [
          | inl here ↦ ground (
            arith,
            w.counted at,
            ap (λ a. a.free_cnt)
                (write_header_self page at (record (p.headers page) { free_cnt = n }) p.headers
                  here),
            ap (λ x. (p.headers x).free_cnt) (same page at here),
          )
          | inr there ↦ ground (
            arith,
            w.counted at,
            ap (λ a. a.free_cnt)
                (write_header_other page at (record (p.headers page) { free_cnt = n }) p.headers
                  there),
          )
        ];
      },
    )
  where
    same : (x y : ℕ) → (x == y) ≡ true → x ≡ y
    same x y e = ground arith

    mul_suc : (m n : ℕ) → m * suc n ≡ m + m * n
    mul_suc m n = omega arith

-- A header whose count goes down by one and up by one is the header it was.
header-back :
    (page at : ℕ) (headers : ℕ → Arena)
    → 1 ≤ (headers page).free_cnt
    → let down =
        write_header page
          (record (headers page) { free_cnt = (headers page).free_cnt - 1 })
          headers in
      write_header page (record (down page) { free_cnt = (down page).free_cnt + 1 }) down at
      ≡ headers at
header-back page at headers h =
    let less : Arena = record (headers page) { free_cnt = (headers page).free_cnt - 1 } in
    let down : ℕ → Arena = write_header page less headers in
    let more : Arena = record (down page) { free_cnt = (down page).free_cnt + 1 } in
    let self : (page == page) ≡ true = ground arith in
    let restored : (headers page).free_cnt - 1 + 1 ≡ (headers page).free_cnt = omega arith in
    elim (Bool-cases (page == at)) [
      | inl here ↦
          let same : page ≡ at = ground arith in
          write_header_self page at more down here
          ∙ ap {A = Arena} {B = Arena} (λ a. record a { free_cnt = a.free_cnt + 1 })
              (write_header_self page page less headers self)
          ∙ ap {A = ℕ} {B = Arena} (λ n. record (headers page) { free_cnt = n }) restored
          ∙ ap headers same
      | inr there ↦
          write_header_other page at more down there ∙ write_header_other page at less headers there
    ]

-- A block that `take_block` took off a well-formed pool, given back, leaves the descriptor as it was,
-- and every header.
pub desc_dealloc-take_block :
    (block : ℕ) (rest : List ℕ) (p : Pool)
    → IsWell p
    → p.desc.free_list ≡ block ∷ rest
    → (mid after : Pool) × (take_block p ≡ (ok block, mid))
      × (desc_dealloc block mid ≡ (ok tt, after))
      × (after.desc ≡ p.desc)
      × ((page : ℕ) → after.headers page ≡ p.headers page)
desc_dealloc-take_block block rest p w e =
    let f = IsWell-Head block rest p w e in
    let (runs, well) = take_block-IsWell block rest p w e in
    let mid = taken block rest p in
    let (back, again) =
      desc_dealloc-IsWell block mid well
        (Usable-write_header (page_of block) p.headers ((p.headers (page_of block)).free_cnt - 1)
          p.desc.block_size block f.usable)
        (omega arith) in
    let allocated : p.desc.allocated + p.desc.block_size - p.desc.block_size ≡ p.desc.allocated =
      omega arith in
    let free : p.desc.free - p.desc.block_size + p.desc.block_size ≡ p.desc.free =
      omega (arith, f.free) in
    (
      mid,
      given block mid,
      runs,
      back,
      rw (allocated, free)
          (ap {A = List ℕ} {B = Desc} (λ l. record (p.desc) { free_list = l }) (sym e)),
      λ at.
          header-back (page_of block) at p.headers
            (ground (arith, f.counted (page_of block), self (page_of block))),
    )
  where
    self : (x : ℕ) → (x == x) ≡ true
    self x = ground arith
