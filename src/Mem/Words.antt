-- ===== src/Mem/Words.antt =====
-- Words of 64 bits: src/mem/utils.rs and what it uses of the core library.
pub mod Zeros
use tacos.Prelude.{
  ℕ, zero, suc, ◌+◌, ◌-◌, ◌*◌, ◌/◌, ◌%◌, ◌^◌, true, false, leb, ◌==◌, if◌then◌else◌,
}

-- `n.trailing_zeros()` of the core library: how often 2 divides `n`, of 64 bits.
pub zeros_of : ℕ → ℕ → ℕ
zeros_of zero n = 0
zeros_of (suc fuel) n = let more = zeros_of fuel (n / 2) in if n % 2 == 0 then suc more else 0

unfoldable pub trailing_zeros : ℕ → ℕ
unfolding zeros_of
trailing_zeros n = zeros_of 64 n

-- `round_up` of mem/utils.rs, for a power of two `align`: `x & !(align - 1)` is `x - x % align`.
unfoldable pub round_up : ℕ → ℕ → ℕ
round_up n align = n + align - 1 - (n + align - 1) % align

unfoldable pub round_down : ℕ → ℕ → ℕ
round_down n align = n - n % align

-- The exponent of the highest bit that is set, from `e` on.
pub log_from : ℕ → ℕ → ℕ → ℕ
log_from zero e n = e
log_from (suc fuel) e n = elim (leb (2 ^ (e + 1)) n) [ true ↦ log_from fuel (e + 1) n | false ↦ e ]

unfoldable pub highest_bit : ℕ → ℕ
unfolding log_from
highest_bit n = log_from 63 0 n

-- `prev_power_of_two`, of a number that is not 0.
unfoldable pub prev_power_of_two : ℕ → ℕ
prev_power_of_two n = 2 ^ highest_bit n
