-- ===== src/Mem/Arena/Pools.antt =====
-- What a pool of malloc.rs keeps, and how a block is taken off its free list.
use tacos.Prelude.{
  ℕ, suc, ◌+◌, ◌-◌, ◌*◌, ◌%◌, ◌^◌, ◌≤◌, ◌<◌, ◌≡◌, ◌≢◌, refl, ap, ◌∙◌, subst, true, false, List, [],
  ◌∷◌, length, leb, ◌==◌, if◌then◌else◌, arith, inl, inr, Bool-cases,
}
use tacos.Prelude.Outcome.{ok, panic}
use tacos.Prelude.Run.{bind-ok, then-ok}
use tacos.Mem.Arena.{
  Arena, Pool, arena_magic, is_present, write_header, page_of, from_block, blocks_for, take_block,
}

-- A block that passes the assertions of `from_block`.
pub record Usable (headers : ℕ → Arena) (block_size block : ℕ) : Type 0 where
  pub nonnull : page_of block ≢ 0
  pub magic : (headers (page_of block)).magic ≡ arena_magic
  pub desc : is_present ((headers (page_of block)).desc) ≡ true
  pub aligned : block % block_size ≡ 0

abbrev pub AllUsable : (ℕ → Arena) → ℕ → List ℕ → Type 0
AllUsable headers block_size [] = Unit
AllUsable headers block_size (b ∷ bs) =
    Usable headers block_size b × AllUsable headers block_size bs

-- How many of the blocks lie in a page.
abbrev pub count_in : ℕ → List ℕ → ℕ
count_in page [] = 0
count_in page (b ∷ bs) = (if page_of b == page then 1 else 0) + count_in page bs

-- What a pool keeps: its size of block is one of the eight, `free` is the size of the blocks on the
-- free list, each of them passes the assertions, and the header of a page counts no fewer free
-- blocks than the list has there.
pub record IsWell (p : Pool) : Type 0 where
  pub index : ℕ
  pub index_fits : index < 8
  pub size : p.desc.block_size ≡ 2 ^ (index + 3)
  pub blocks : p.desc.blocks_per_arena ≡ blocks_for (2 ^ (index + 3))
  pub free : p.desc.free ≡ p.desc.block_size * length p.desc.free_list
  pub usable : AllUsable p.headers p.desc.block_size p.desc.free_list
  pub counted : (page : ℕ) → count_in page p.desc.free_list ≤ (p.headers page).free_cnt

pub from_block-ok :
    (block : ℕ) (p : Pool)
    → Usable p.headers p.desc.block_size block
    → from_block block p ≡ (ok (page_of block), p)
unfolding from_block
from_block-ok block p u =
    let e1 : (page_of block == 0) ≡ false = ground (arith, u.nonnull) in
    let e2 : ((p.headers (page_of block)).magic == arena_magic) ≡ true = ground (arith, u.magic) in
    let e3 : (block % p.desc.block_size == 0) ≡ true = ground (arith, u.aligned) in
    rw (e1, e2, u.desc, e3) refl

pub write_header_self :
    (page at : ℕ) (arena : Arena) (headers : ℕ → Arena)
    → (page == at) ≡ true
    → write_header page arena headers at ≡ arena
unfolding write_header
write_header_self page at arena headers e = ap (λ r. elim r [ true ↦ arena | false ↦ headers at ]) e

pub write_header_other :
    (page at : ℕ) (arena : Arena) (headers : ℕ → Arena)
    → (page == at) ≡ false
    → write_header page arena headers at ≡ headers at
unfolding write_header
write_header_other page at arena headers e =
    ap (λ r. elim r [ true ↦ arena | false ↦ headers at ]) e

-- A header that keeps its magic word and its descriptor leaves the blocks usable.
pub Usable-write_header :
    (page : ℕ) (headers : ℕ → Arena) (n block_size block : ℕ)
    → Usable headers block_size block
    → Usable (write_header page (record (headers page) { free_cnt = n }) headers) block_size block
Usable-write_header page headers n block_size block u = elim (Bool-cases (page == page_of block)) [
  | inl here ↦
      let same : page ≡ page_of block = ground arith in
      let at =
        write_header_self page (page_of block) (record (headers page) { free_cnt = n }) headers
          here in
      record {
        nonnull = u.nonnull;
        magic = ap (λ a. a.magic) at ∙ ap (λ x. (headers x).magic) same ∙ u.magic;
        desc =
            ap (λ a. is_present (a.desc)) at
            ∙ ap (λ x. is_present ((headers x).desc)) same
            ∙ u.desc;
        aligned = u.aligned;
      }
  | inr there ↦
      let at =
        write_header_other page (page_of block) (record (headers page) { free_cnt = n }) headers
          there in
      record {
        nonnull = u.nonnull;
        magic = ap (λ a. a.magic) at ∙ u.magic;
        desc = ap (λ a. is_present (a.desc)) at ∙ u.desc;
        aligned = u.aligned;
      }
]

pub AllUsable-write_header :
    (page : ℕ) (headers : ℕ → Arena) (n block_size : ℕ) (bs : List ℕ)
    → AllUsable headers block_size bs
    → AllUsable (write_header page (record (headers page) { free_cnt = n }) headers) block_size bs
AllUsable-write_header page headers n block_size [] u = tt
AllUsable-write_header page headers n block_size (b ∷ bs) u = (
  Usable-write_header page headers n block_size b u.0,
  AllUsable-write_header page headers n block_size bs u.1,
)

-- What `take_block` leaves of a pool whose free list is `block ∷ rest`.
abbrev pub taken : ℕ → List ℕ → Pool → Pool
taken block rest p =
    let arena = p.headers (page_of block) in
    record p {
      desc = record (p.desc) {
        allocated = p.desc.allocated + p.desc.block_size;
        free = p.desc.free - p.desc.block_size;
        free_list = rest;
      };
      headers =
          write_header (page_of block) (record arena { free_cnt = arena.free_cnt - 1 }) p.headers;
    }

-- The first block of the list, and what the counts say of it.
pub record Head (block : ℕ) (rest : List ℕ) (p : Pool) : Type 0 where
  pub usable : Usable p.headers p.desc.block_size block
  pub others : AllUsable p.headers p.desc.block_size rest
  pub free : p.desc.free ≡ p.desc.block_size + p.desc.block_size * length rest
  pub counted :
      (page : ℕ)
      → (if page_of block == page then 1 else 0) + count_in page rest ≤ (p.headers page).free_cnt

pub IsWell-Head :
    (block : ℕ) (rest : List ℕ) (p : Pool)
    → IsWell p
    → p.desc.free_list ≡ block ∷ rest
    → Head block rest p
IsWell-Head block rest p w e =
    let usable = subst (AllUsable p.headers p.desc.block_size) e w.usable in
    record {
      usable = usable.0;
      others = usable.1;
      free =
          w.free
          ∙ ap (λ l. p.desc.block_size * length l) e
          ∙ mul_suc p.desc.block_size (length rest);
      counted = λ page. subst (λ l. count_in page l ≤ (p.headers page).free_cnt) e (w.counted page);
    }
  where
    mul_suc : (m n : ℕ) → m * suc n ≡ m + m * n
    mul_suc m n = omega arith

page_self : (x : ℕ) → (x == x) ≡ true
page_self x = ground arith

pub take_block-IsWell :
    (block : ℕ) (rest : List ℕ) (p : Pool)
    → IsWell p
    → p.desc.free_list ≡ block ∷ rest
    → (take_block p ≡ (ok block, taken block rest p)) × IsWell (taken block rest p)
unfolding take_block
take_block-IsWell block rest p w e =
    let f = IsWell-Head block rest p w e in
    let page = page_of block in
    let p1 : Pool = record p {
      desc = record (p.desc) {
        allocated = p.desc.allocated + p.desc.block_size;
        free = p.desc.free - p.desc.block_size;
      };
    } in
    let p2 : Pool = record p1 { desc = record (p1.desc) { free_list = rest } } in
    let enough : leb p.desc.block_size p.desc.free ≡ true = ground (arith, f.free) in
    let some_free : leb 1 ((p.headers page).free_cnt) ≡ true =
      ground (arith, f.counted page, page_self page) in
    (
      then-ok _ _ {s' = p1} (ap (λ r. if r then (ok tt, p1) else (panic, p)) enough) (
          bind-ok _ _ {s' = p2} {a = block}
            (ap
              (λ l. elim l [
                | [] ↦ (panic, p1)
                | b ∷ bs ↦ (ok b, record p1 { desc = record (p1.desc) { free_list = bs } })
              ])
              e)
            (bind-ok _ _ (from_block-ok block p2 f.usable) (
              then-ok _ _ {s' = taken block rest p}
                (ap (λ r. if r then (ok tt, taken block rest p) else (panic, p2)) some_free)
                refl))),
      record {
        index = w.index;
        index_fits = w.index_fits;
        size = w.size;
        blocks = w.blocks;
        free = omega (arith, f.free);
        usable =
            AllUsable-write_header page p.headers ((p.headers page).free_cnt - 1) p.desc.block_size
              rest f.others;
        counted = λ at. elim (Bool-cases (page == at)) [
          | inl here ↦ ground (
            arith,
            f.counted at,
            ap (λ a. a.free_cnt)
                (write_header_self page at
                  (record (p.headers page) { free_cnt = (p.headers page).free_cnt - 1 }) p.headers
                  here),
            ap (λ x. (p.headers x).free_cnt) (same page at here),
          )
          | inr there ↦ ground (
            arith,
            f.counted at,
            ap (λ a. a.free_cnt)
                (write_header_other page at
                  (record (p.headers page) { free_cnt = (p.headers page).free_cnt - 1 }) p.headers
                  there),
          )
        ];
      },
    )
  where
    same : (x y : ℕ) → (x == y) ≡ true → x ≡ y
    same x y e = ground arith
