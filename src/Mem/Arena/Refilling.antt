-- ===== src/Mem/Arena/Refilling.antt =====
-- `Desc::alloc` of malloc.rs, which cuts up a fresh page when the free list is empty.
use tacos.Prelude.{
  ℕ, zero, suc, ◌+◌, ◌-◌, ◌*◌, ◌%◌, ◌^◌, ◌<◌, ◌≡◌, ◌≢◌, refl, sym, ap, ◌∙◌, subst, true, some, List,
  [], ◌∷◌, length, ◌==◌, arith, inl, inr, Bool-cases,
}
use tacos.Prelude.Outcome.{Outcome, ok}
use tacos.Prelude.Run.{◌>>◌, bind-ok, then-ok}
use tacos.Mem.Buddy.{Buddy, alloc, page_size}
use tacos.Mem.Arena.{
  Arena, Pool, arena_magic, is_present, write_header, page_of, blocks_for, alloc_page, refill,
  take_block, desc_alloc,
}
use tacos.Mem.Arena.Pools.{
  Usable, AllUsable, IsWell, IsWell-Head, Usable-write_header, count_in, taken, write_header_self,
  take_block-IsWell,
}
use tacos.Mem.Arena.Cutting.{with_free, Ready, push_blocks-Pushed}

blocks_for-positive : (k : ℕ) → k < 8 → 0 < blocks_for (2 ^ (k + 3))
unfolding blocks_for
blocks_for-positive zero h = omega arith
blocks_for-positive (suc zero) h = omega arith
blocks_for-positive (suc (suc zero)) h = omega arith
blocks_for-positive (suc (suc (suc zero))) h = omega arith
blocks_for-positive (suc (suc (suc (suc zero)))) h = omega arith
blocks_for-positive (suc (suc (suc (suc (suc zero))))) h = omega arith
blocks_for-positive (suc (suc (suc (suc (suc (suc zero)))))) h = omega arith
blocks_for-positive (suc (suc (suc (suc (suc (suc (suc zero))))))) h = omega arith
blocks_for-positive (suc (suc (suc (suc (suc (suc (suc (suc k)))))))) h = absurd (omega arith)

-- The page that `Palloc::alloc(1)` answers, where it starts at a multiple of its size.
pub record Supply (page : ℕ) (left : Buddy) (p : Pool) : Type 0 where
  pub answered : alloc 1 p.pages ≡ (ok page, left)
  pub aligned : page % 4096 ≡ 0
  pub nonnull : page ≢ 0

alloc_page-Supply :
    (page : ℕ) (left : Buddy) (p : Pool)
    → Supply page left p
    → alloc_page p ≡ (ok page, record p { pages = left })
unfolding alloc_page
alloc_page-Supply page left p s =
    ap {A = Outcome ℕ × Buddy} {B = Outcome ℕ × Pool} (λ r. (r.0, record p { pages = r.1 }))
      s.answered

refill-IsWell :
    (self page : ℕ) (left : Buddy) (p : Pool)
    → IsWell p
    → p.desc.free_list ≡ []
    → Supply page left p
    → (after : Pool) × (refill self p ≡ (ok tt, after))
      × IsWell after
      × (length after.desc.free_list ≡ p.desc.blocks_per_arena)
      × (after.desc.block_size ≡ p.desc.block_size)
      × (after.desc.allocated ≡ p.desc.allocated)
unfolding refill
refill-IsWell self page left p w e supply =
    let fresh : Arena = record {
      magic = arena_magic;
      free_cnt = p.desc.blocks_per_arena;
      desc = some self;
    } in
    let p1 : Pool = record p { pages = left } in
    let p2 : Pool = record p1 { headers = write_header page fresh p.headers } in
    let self_page : (page == page) ≡ true = ground arith in
    let written = write_header_self page page fresh p.headers self_page in
    let ready : Ready page p2 = record {
      index = w.index;
      index_fits = w.index_fits;
      size = w.size;
      blocks = w.blocks;
      page_aligned = supply.aligned;
      nonnull = supply.nonnull;
      magic = ap (λ a. a.magic) written;
      desc = ap (λ a. is_present (a.desc)) written;
    } in
    let none_left : AllUsable p2.headers p2.desc.block_size p2.desc.free_list =
      subst (AllUsable p2.headers p2.desc.block_size) (sym e) tt in
    let (l, runs, s) =
      push_blocks-Pushed p.desc.blocks_per_arena 0 page p2 ready (omega arith) none_left in
    let after : Pool = record p2 {
      desc = record (p.desc) {
        free_list = l;
        total = p.desc.total + page_size;
        free = p.desc.free + p.desc.block_size * p.desc.blocks_per_arena;
      };
    } in
    let filled : length l ≡ p.desc.blocks_per_arena =
      omega (arith, s.size, ap (length {A = ℕ}) e) in
    (
      after,
      bind-ok _ _ (alloc_page-Supply page left p supply)
          (then-ok _ _ {s' = p2} refl (then-ok _ _ {s' = with_free l p2} runs refl)),
      record {
        index = w.index;
        index_fits = w.index_fits;
        size = w.size;
        blocks = w.blocks;
        free = omega (
          arith,
          w.free,
          ap (λ l. p.desc.block_size * length l) e,
          ap (λ n. p.desc.block_size * n) filled,
        );
        usable = s.usable;
        counted = λ at. elim (Bool-cases (page == at)) [
          | inl here ↦ omega (
            arith,
            s.here at here,
            ap (count_in at) e,
            ap (λ a. a.free_cnt) (write_header_self page at fresh p.headers here),
          )
          | inr there ↦ omega (arith, s.there at there, ap (count_in at) e)
        ];
      },
      filled,
      refl,
      refl,
    )

desc_alloc-empty :
    (self : ℕ) (p : Pool)
    → p.desc.free_list ≡ []
    → desc_alloc self p ≡ (refill self >> take_block) p
unfolding desc_alloc
desc_alloc-empty self p e =
    ap (λ l. elim l [ [] ↦ (refill self >> take_block) p | block ∷ rest ↦ take_block p ]) e

desc_alloc-more :
    (self block : ℕ) (rest : List ℕ) (p : Pool)
    → p.desc.free_list ≡ block ∷ rest
    → desc_alloc self p ≡ take_block p
unfolding desc_alloc
desc_alloc-more self block rest p e =
    ap (λ l. elim l [ [] ↦ (refill self >> take_block) p | block ∷ rest ↦ take_block p ]) e

-- What `Desc::alloc` answers, and what it leaves.
pub record Served (block : ℕ) (p after : Pool) : Type 0 where
  pub well : IsWell after
  pub usable : Usable after.headers p.desc.block_size block
  pub allocated : after.desc.allocated ≡ p.desc.allocated + p.desc.block_size

taken-Served :
    (block : ℕ) (rest : List ℕ) (p : Pool)
    → IsWell p
    → p.desc.free_list ≡ block ∷ rest
    → (take_block p ≡ (ok block, taken block rest p)) × Served block p (taken block rest p)
taken-Served block rest p w e =
    let (runs, well) = take_block-IsWell block rest p w e in
    let f = IsWell-Head block rest p w e in
    (
      runs,
      record {
        well = well;
        usable =
            Usable-write_header (page_of block) p.headers ((p.headers (page_of block)).free_cnt - 1)
              p.desc.block_size block f.usable;
        allocated = refl;
      },
    )

-- On a well-formed pool, where the page allocator can answer a page that is aligned and not null,
-- `Desc::alloc` answers a block without a panic, whether or not the free list was empty: the block
-- passes the assertions that giving it back makes, its size is counted as allocated, and the pool
-- stays well formed.
pub desc_alloc-Served :
    (self page : ℕ) (left : Buddy) (p : Pool)
    → IsWell p
    → Supply page left p
    → (block : ℕ) × (after : Pool) × (desc_alloc self p ≡ (ok block, after)) × Served block p after
desc_alloc-Served self page left p w supply =
    elim p.desc.free_list
        as (λ l.
          p.desc.free_list ≡ l
          → (block : ℕ) × (after : Pool) × (desc_alloc self p ≡ (ok block, after))
            × Served block p after) [
              | [] ↦ λ e.
                  let (mid, filling, well, filled, size, allocated) =
                    refill-IsWell self page left p w e supply in
                  let (block, after, runs, s) =
                    served_after mid well
                      (omega (arith, filled, w.blocks, blocks_for-positive w.index w.index_fits)) in
                  (
                    block,
                    after,
                    desc_alloc-empty self p e ∙ then-ok _ _ filling runs,
                    record {
                      well = s.well;
                      usable = subst (λ z. Usable after.headers z block) size s.usable;
                      allocated = omega (arith, s.allocated, size, allocated);
                    },
                  )
              | block ∷ rest ↦ λ e.
                  let (runs, s) = taken-Served block rest p w e in
                  (block, taken block rest p, desc_alloc-more self block rest p e ∙ runs, s)
            ]
      refl
  where
    served_after :
        (mid : Pool)
        → IsWell mid
        → 0 < length mid.desc.free_list
        → (block : ℕ) × (after : Pool) × (take_block mid ≡ (ok block, after))
          × Served block mid after
    served_after mid well h =
        elim mid.desc.free_list
            as (λ l.
              mid.desc.free_list ≡ l
              → (block : ℕ) × (after : Pool) × (take_block mid ≡ (ok block, after))
                × Served block mid after) [
                  | [] ↦ λ e. absurd (omega (arith, ap (length {A = ℕ}) e))
                  | block ∷ rest ↦ λ e.
                      let (runs, s) = taken-Served block rest mid well e in
                      (block, taken block rest mid, runs, s)
                ]
          refl
