-- ===== src/Mem/Arena/Bounds.antt =====
-- `Arena::get_block` of malloc.rs answers blocks of the page, and none in its header.
use tacos.Prelude.{ℕ, zero, suc, ◌+◌, ◌*◌, ◌%◌, ◌^◌, ◌≤◌, ◌<◌, ◌≡◌, arith}
use native.Mathlib.Nat.{mul-le-mul_right}
use tacos.Mem.Words.{round_up}
use tacos.Mem.Arena.{blocks_for, block_at, page_of}

-- A block of `block_size` bytes that lies in the page, behind the header of 16 bytes, and is aligned.
pub record Within (block_size page block : ℕ) : Type 0 where
  pub behind : page + 16 ≤ block
  pub inside : block + block_size ≤ page + 4096
  pub aligned : block % block_size ≡ 0
  pub found : page_of block ≡ page

-- The address of the block at each index below the number of blocks, for each of the eight sizes of
-- block and a page that starts at a multiple of its size: the block lies in the page, does not reach
-- into the header, is aligned to its size, and clearing the low bits of its address gives the page.
pub block_at-Within :
    (k idx page : ℕ)
    → k < 8
    → page % 4096 ≡ 0
    → idx < blocks_for (2 ^ (k + 3))
    → Within (2 ^ (k + 3)) page (block_at (2 ^ (k + 3)) page idx)
unfolding blocks_for block_at page_of round_up
block_at-Within zero idx page h p i = record {
  behind = omega arith;
  inside = omega arith;
  aligned = omega arith;
  found = omega arith;
}
block_at-Within (suc zero) idx page h p i = record {
  behind = omega arith;
  inside = omega arith;
  aligned = omega arith;
  found = omega arith;
}
block_at-Within (suc (suc zero)) idx page h p i = record {
  behind = omega arith;
  inside = omega arith;
  aligned = omega arith;
  found = omega arith;
}
block_at-Within (suc (suc (suc zero))) idx page h p i = record {
  behind = omega arith;
  inside = omega arith;
  aligned = omega arith;
  found = omega arith;
}
block_at-Within (suc (suc (suc (suc zero)))) idx page h p i = record {
  behind = omega arith;
  inside = omega arith;
  aligned = omega arith;
  found = omega arith;
}
block_at-Within (suc (suc (suc (suc (suc zero))))) idx page h p i = record {
  behind = omega arith;
  inside = omega arith;
  aligned = omega arith;
  found = omega arith;
}
block_at-Within (suc (suc (suc (suc (suc (suc zero)))))) idx page h p i = record {
  behind = omega arith;
  inside = omega arith;
  aligned = omega arith;
  found = omega arith;
}
block_at-Within (suc (suc (suc (suc (suc (suc (suc zero))))))) idx page h p i = record {
  behind = omega arith;
  inside = omega arith;
  aligned = omega arith;
  found = omega arith;
}
block_at-Within (suc (suc (suc (suc (suc (suc (suc (suc k)))))))) idx page h p i =
    absurd (omega arith)

-- Two blocks of one page at different indexes do not overlap.
pub block_at-apart :
    (block_size page i j : ℕ)
    → i < j
    → block_at block_size page i + block_size ≤ block_at block_size page j
unfolding block_at
block_at-apart block_size page i j h =
    omega (arith, mul-le-mul_right {m = suc i} {n = j} block_size (omega arith), suc_mul i)
  where
    suc_mul : (i : ℕ) → suc i * block_size ≡ i * block_size + block_size
    suc_mul i = omega arith
