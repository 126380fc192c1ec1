-- ===== src/Mem/Buddy/Orders.antt =====
-- The chunk that a round of `insert_range` of palloc.rs takes, by the alignment of its start and by
-- what is left of the range.
use tacos.Prelude.{
  ℕ, zero, suc, ◌+◌, ◌-◌, ◌*◌, ◌%◌, ◌^◌, min, ◌≤◌, ◌<◌, ◌≡◌, ◌≢◌, refl, ap, ◌∙◌, leb, ◌==◌, true,
  false, arith, inl, inr, Bool-cases,
}
use native.Mathlib.Nat.{pow-le-pow_right}
use tacos.Prelude.Outcome.{ok}
use tacos.Mem.Words.{trailing_zeros, prev_power_of_two, highest_bit}
use tacos.Mem.Words.Zeros.{trailing_zeros-power, trailing_zeros-page, Highest, highest_bit-Highest}
use tacos.Mem.Buddy.{Buddy, chunk, order_at}

pub chunk-power : (k : ℕ) → chunk k ≡ 2 ^ (k + 12)
unfolding chunk
chunk-power zero = refl
chunk-power (suc k) =
    let z : suc k + 12 ≡ suc (k + 12) = omega arith in
    let twice : 2 ^ suc (k + 12) ≡ 2 * 2 ^ (k + 12) = omega arith in
    omega (arith, chunk-power k, ap (λ e. 2 ^ e) z)

pub chunk-aligned : (k : ℕ) → chunk k % 4096 ≡ 0
unfolding chunk
chunk-aligned zero = refl
chunk-aligned (suc k) = omega (arith, chunk-aligned k)

min-power : (m n : ℕ) → min (2 ^ m) (2 ^ n) ≡ 2 ^ min m n
min-power m n = elim (Bool-cases (leb m n)) [
  | inl le ↦
      let up : m ≤ n = ground arith in
      let of_exponents : min m n ≡ m = omega arith in
      let grows : 2 ^ m ≤ 2 ^ n = pow-le-pow_right {n = 2} (omega arith) up in
      omega (arith, ap (λ e. 2 ^ e) of_exponents)
  | inr gt ↦
      let down : n ≤ m = ground arith in
      let of_exponents : min m n ≡ n = omega arith in
      let grows : 2 ^ n ≤ 2 ^ m = pow-le-pow_right {n = 2} (omega arith) down in
      omega (arith, ap (λ e. 2 ^ e) of_exponents)
]

-- An exponent whose power of two is below a bound is below the bound's.
exponent_lt : (m n : ℕ) → 2 ^ m < 2 ^ n → m < n
exponent_lt m n h = elim (Bool-cases (leb n m)) [
  | inl ge ↦
      let up : n ≤ m = ground arith in
      let grows : 2 ^ n ≤ 2 ^ m = pow-le-pow_right {n = 2} (omega arith) up in absurd (omega arith)
  | inr lt ↦ ground arith
]

-- The chunk that a round takes fits in what is left of the range.
pub order_at-fits :
    (start end : ℕ) (b : Buddy)
    → start ≢ 0
    → start < end
    → end < 2 ^ 64
    → start % 4096 ≡ 0
    → end % 4096 ≡ 0
    → (order : ℕ) × (order_at start end b ≡ (ok order, b))
      × (order ≤ 8)
      × (start + chunk order ≤ end)
unfolding order_at prev_power_of_two
order_at-fits start end b nonnull left word aligned end_aligned =
    let e = highest_bit (end - start) in
    let h : Highest (end - start) e =
      highest_bit-Highest (end - start) (omega arith) (omega arith) in
    let m = min (trailing_zeros start) e in
    let tz : 12 ≤ trailing_zeros start = trailing_zeros-page start aligned in
    let high : 12 < e + 1 = exponent_lt 12 (e + 1) (omega (arith, h.next)) in
    let small : e < 64 = exponent_lt e 64 (omega (arith, h.reached)) in
    let size : min (2 ^ trailing_zeros start) (2 ^ e) ≡ 2 ^ m =
      min-power (trailing_zeros start) e in
    let zeros : trailing_zeros (min (2 ^ trailing_zeros start) (2 ^ e)) ≡ m =
      ap trailing_zeros size ∙ trailing_zeros-power m (omega arith) in
    let e1 : (start == 0) ≡ false = ground arith in
    let e2 : leb 12 m ≡ true = ground arith in
    let order = min (m - 12) 8 in
    let grows : 2 ^ (order + 12) ≤ 2 ^ e = pow-le-pow_right {n = 2} (omega arith) (omega arith) in
    (order, rw (e1, zeros, e2) refl, omega arith, omega (arith, chunk-power order, h.reached))
