-- ===== src/Prelude/Bits.antt =====
-- The bits of a byte: `b & (1 << k) != 0`, `b | 1 << k` and `b & !(1 << k)` at `u8`.
use Prim.Native.Nat.{ℕ, zero, suc, ◌-◌, ◌^◌, ◌<◌, bit_and, bit_or}
use mathlib.Core.Path.{◌≡◌, refl}
use mathlib.Core.Bool.{Bool, true, false, not, ◌&&◌}
use native.Mathlib.Omega.{arith}
use tacos.Prelude.Tests.{◌==◌, ltb, if◌then◌else◌}

unfoldable pub test_bit : ℕ → ℕ → Bool
test_bit b k = not (bit_and b (2 ^ k) == 0)

unfoldable pub set_bit : ℕ → ℕ → ℕ
set_bit b k = bit_or b (2 ^ k)

unfoldable pub clear_bit : ℕ → ℕ → ℕ
clear_bit b k = bit_and b (255 - 2 ^ k)

-- Whether `p` holds at each of the numbers under `bound`.
pub every : (ℕ → Bool) → ℕ → Bool
every p zero = true
every p (suc bound) = every p bound && p bound

pub every-at : (p : ℕ → Bool) (bound i : ℕ) → i < bound → every p bound ≡ true → p i ≡ true
unfolding every
every-at p zero i inside e = absurd (omega arith)
every-at p (suc bound) i inside e = ground (arith, every-at p bound i)

same : Bool → Bool → Bool
same true b = b
same false b = not b

same_sound : (a b : Bool) → same a b ≡ true → a ≡ b
unfolding same
same_sound a b h = ground arith

set_row : ℕ → ℕ → ℕ → Bool
set_row b k j = same (test_bit (set_bit b k) j) (if k == j then true else test_bit b j)

clear_row : ℕ → ℕ → ℕ → Bool
clear_row b k j = same (test_bit (clear_bit b k) j) (if k == j then false else test_bit b j)

-- A law of two bit positions of a byte holds if it holds at every byte and every position.
byte_laws : (ℕ → ℕ → ℕ → Bool) → Bool
unfolding every
byte_laws f = every (λ b. every (λ k. every (f b k) 8) 8) 256

byte_table :
    (f : ℕ → ℕ → ℕ → Bool)
    → byte_laws f ≡ true
    → (b k j : ℕ) → b < 256
    → k < 8
    → j < 8
    → f b k j ≡ true
unfolding byte_laws
byte_table f t b k j hb hk hj =
    let row = every-at (λ b. every (λ k. every (f b k) 8) 8) 256 b hb t in
    every-at (f b k) 8 j hj (every-at (λ k. every (f b k) 8) 8 k hk row)

set_table : byte_laws set_row ≡ true
unfolding byte_laws every set_row same test_bit set_bit
set_table = refl

clear_table : byte_laws clear_row ≡ true
unfolding byte_laws every clear_row same test_bit clear_bit
clear_table = refl

bound_row : ℕ → ℕ → ℕ → Bool
bound_row b k j = ltb (set_bit b k) 256 && ltb (clear_bit b k) 256

bound_table : byte_laws bound_row ≡ true
unfolding byte_laws every bound_row set_bit clear_bit
bound_table = refl

pub test_bit-set_bit :
    (b k j : ℕ)
    → b < 256
    → k < 8
    → j < 8
    → test_bit (set_bit b k) j ≡ (if k == j then true else test_bit b j)
unfolding set_row
test_bit-set_bit b k j hb hk hj = same_sound _ _ (byte_table set_row set_table b k j hb hk hj)

pub test_bit-clear_bit :
    (b k j : ℕ)
    → b < 256
    → k < 8
    → j < 8
    → test_bit (clear_bit b k) j ≡ (if k == j then false else test_bit b j)
unfolding clear_row
test_bit-clear_bit b k j hb hk hj = same_sound _ _ (byte_table clear_row clear_table b k j hb hk hj)

pub bits-lt : (b k : ℕ) → b < 256 → k < 8 → (set_bit b k < 256) × (clear_bit b k < 256)
unfolding bound_row
bits-lt b k hb hk = ground (arith, byte_table bound_row bound_table b k 0 hb hk (omega arith))
