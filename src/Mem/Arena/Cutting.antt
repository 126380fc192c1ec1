-- ===== src/Mem/Arena/Cutting.antt =====
-- How malloc.rs cuts a page into blocks.
use tacos.Prelude.{
  ℕ, zero, suc, ◌+◌, ◌%◌, ◌^◌, ◌≤◌, ◌<◌, ◌≡◌, ◌≢◌, refl, sym, ap, ◌∙◌, subst, true, false, List,
  ◌∷◌, length, ltb, ◌==◌, arith,
}
use tacos.Prelude.Outcome.{ok}
use tacos.Prelude.Run.{bind-ok, then-ok}
use tacos.Mem.Buddy.{page_size}
use tacos.Mem.Arena.{
  Pool, arena_magic, is_present, page_of, block_at, blocks_for, get_block, push_blocks,
}
use tacos.Mem.Arena.Bounds.{Within, block_at-Within}
use tacos.Mem.Arena.Pools.{Usable, AllUsable, count_in}

abbrev pub with_free : List ℕ → Pool → Pool
with_free l p = record p { desc = record (p.desc) { free_list = l } }

-- A pool whose page at `page` has a header of its own, of one of the eight sizes of block.
pub record Ready (page : ℕ) (p : Pool) : Type 0 where
  pub index : ℕ
  pub index_fits : index < 8
  pub size : p.desc.block_size ≡ 2 ^ (index + 3)
  pub blocks : p.desc.blocks_per_arena ≡ blocks_for (2 ^ (index + 3))
  pub page_aligned : page % 4096 ≡ 0
  pub nonnull : page ≢ 0
  pub magic : (p.headers page).magic ≡ arena_magic
  pub desc : is_present ((p.headers page).desc) ≡ true

block_at-Usable :
    (page i : ℕ) (p : Pool)
    → Ready page p
    → i < p.desc.blocks_per_arena
    → (page_of (block_at p.desc.block_size page i) ≡ page)
      × Usable p.headers p.desc.block_size (block_at p.desc.block_size page i)
block_at-Usable page i p r h =
    let w =
      subst (λ s. Within s page (block_at s page i)) (sym r.size)
        (block_at-Within r.index i page r.index_fits r.page_aligned (omega (arith, r.blocks))) in
    (
      w.found,
      record {
        nonnull = λ z. r.nonnull (sym w.found ∙ z);
        magic = ap (λ x. (p.headers x).magic) w.found ∙ r.magic;
        desc = ap (λ x. is_present ((p.headers x).desc)) w.found ∙ r.desc;
        aligned = w.aligned;
      },
    )

get_block-ok :
    (page i : ℕ) (p : Pool)
    → Ready page p
    → i < p.desc.blocks_per_arena
    → get_block page i p ≡ (ok (block_at p.desc.block_size page i), p)
unfolding get_block
get_block-ok page i p r h =
    let e1 : ((p.headers page).magic == arena_magic) ≡ true = ground (arith, r.magic) in
    let e2 : ltb i p.desc.blocks_per_arena ≡ true = ground arith in
    let e3 : (page % page_size == 0) ≡ true = ground (arith, r.page_aligned) in rw (e1, e2, e3) refl

-- What the loop leaves: that many more blocks, all of the page.
pub record Pushed (rounds page : ℕ) (p : Pool) (l : List ℕ) : Type 0 where
  pub size : length l ≡ rounds + length p.desc.free_list
  pub usable : AllUsable p.headers p.desc.block_size l
  pub here : (at : ℕ) → (page == at) ≡ true → count_in at l ≡ rounds + count_in at p.desc.free_list
  pub there : (at : ℕ) → (page == at) ≡ false → count_in at l ≡ count_in at p.desc.free_list

pub push_blocks-Pushed :
    (rounds i page : ℕ) (p : Pool)
    → Ready page p
    → i + rounds ≤ p.desc.blocks_per_arena
    → AllUsable p.headers p.desc.block_size p.desc.free_list
    → (l : List ℕ) × (push_blocks rounds i page p ≡ (ok tt, with_free l p)) × Pushed rounds page p l
unfolding push_blocks
push_blocks-Pushed zero i page p r h u = (
  p.desc.free_list,
  refl,
  record { size = omega arith; usable = u; here = λ at e. omega arith; there = λ at e. refl },
)
push_blocks-Pushed (suc rounds) i page p r h u =
    let block = block_at p.desc.block_size page i in
    let (found, usable) = block_at-Usable page i p r (omega arith) in
    let p1 = with_free (block ∷ p.desc.free_list) p in
    let ready : Ready page p1 = record {
      index = r.index;
      index_fits = r.index_fits;
      size = r.size;
      blocks = r.blocks;
      page_aligned = r.page_aligned;
      nonnull = r.nonnull;
      magic = r.magic;
      desc = r.desc;
    } in
    let (l, runs, s) = push_blocks-Pushed rounds (i + 1) page p1 ready (omega arith) (usable, u) in
    (
      l,
      bind-ok _ _ (get_block-ok page i p r (omega arith)) (then-ok _ _ {s' = p1} refl runs),
      record {
        size = omega (arith, s.size);
        usable = s.usable;
        here = λ at e. ground (arith, s.here at e, ap (λ x. x == at) found);
        there = λ at e. ground (arith, s.there at e, ap (λ x. x == at) found);
      },
    )
