-- ===== src/Mem/Words/Zeros.antt =====
-- Trailing zeros, and the highest power of two that is no greater.
use tacos.Prelude.{
  ℕ, zero, suc, ◌+◌, ◌*◌, ◌/◌, ◌%◌, ◌^◌, ◌≤◌, ◌<◌, ◌≡◌, refl, sym, ap, ◌∙◌, subst, true, false, leb,
  ◌==◌, arith, inl, inr, Bool-cases,
}
use native.Mathlib.Nat.{mul_assoc}
use tacos.Mem.Words.{zeros_of, trailing_zeros, log_from, highest_bit}

double : (k q : ℕ) → 2 ^ suc k * q ≡ 2 * (2 ^ k * q)
double k q =
    let power : 2 ^ suc k ≡ 2 * 2 ^ k = omega arith in ap (λ p. p * q) power ∙ mul_assoc 2 (2 ^ k) q

zeros_of-even : (fuel x : ℕ) → zeros_of (suc fuel) (2 * x) ≡ suc (zeros_of fuel x)
unfolding zeros_of
zeros_of-even fuel x =
    let even : (2 * x) % 2 == 0 ≡ true = ground arith in
    let half : (2 * x) / 2 ≡ x = omega arith in rw (even, half) refl

-- A multiple of 2 ^ k has at least k zeros.
zeros_of-le : (k fuel q : ℕ) → k ≤ zeros_of (k + fuel) (2 ^ k * q)
zeros_of-le zero fuel q = omega arith
zeros_of-le (suc k) fuel q =
    let more : suc k + fuel ≡ suc (k + fuel) = omega arith in
    omega (
      arith,
      ap (λ f. zeros_of f (2 ^ suc k * q)) more,
      ap (zeros_of (suc (k + fuel))) (double k q),
      zeros_of-even (k + fuel) (2 ^ k * q),
      zeros_of-le k fuel q,
    )

-- A power of two has as many zeros as its exponent says.
zeros_of-power : (m fuel : ℕ) → m < fuel → zeros_of fuel (2 ^ m) ≡ m
unfolding zeros_of
zeros_of-power m zero h = absurd (omega arith)
zeros_of-power zero (suc fuel) h = refl
zeros_of-power (suc m) (suc fuel) h =
    let twice : 2 ^ suc m ≡ 2 * 2 ^ m = omega arith in
    ap (zeros_of (suc fuel)) twice
    ∙ zeros_of-even fuel (2 ^ m)
    ∙ ap suc (zeros_of-power m fuel (omega arith))

pub trailing_zeros-power : (m : ℕ) → m < 64 → trailing_zeros (2 ^ m) ≡ m
unfolding trailing_zeros
trailing_zeros-power m h = zeros_of-power m 64 h

pub trailing_zeros-page : (x : ℕ) → x % 4096 ≡ 0 → 12 ≤ trailing_zeros x
unfolding trailing_zeros
trailing_zeros-page x h =
    let multiple : 4096 * (x / 4096) ≡ x = omega arith in
    subst (λ y. 12 ≤ zeros_of 64 y) multiple (zeros_of-le 12 52 (x / 4096))

-- The exponent of the highest power of two that is no greater.
pub record Highest (n e : ℕ) : Type 0 where
  pub reached : 2 ^ e ≤ n
  pub next : n < 2 ^ (e + 1)

log_from-Highest :
    (fuel e n : ℕ) → 2 ^ e ≤ n → n < 2 ^ (e + fuel + 1) → Highest n (log_from fuel e n)
unfolding log_from
log_from-Highest zero e n h below =
    let z : e + 0 + 1 ≡ e + 1 = omega arith in
    record { reached = h; next = omega (arith, ap (λ x. 2 ^ x) z) }
log_from-Highest (suc fuel) e n h below = elim (Bool-cases (leb (2 ^ (e + 1)) n)) [
  | inl more ↦
      let z : e + suc fuel + 1 ≡ e + 1 + fuel + 1 = omega arith in
      subst (Highest n) (sym (ap (λ r. elim r [ true ↦ log_from fuel (e + 1) n | false ↦ e ]) more))
        (log_from-Highest fuel (e + 1) n (ground arith) (omega (arith, ap (λ x. 2 ^ x) z)))
  | inr last ↦
      subst (Highest n) (sym (ap (λ r. elim r [ true ↦ log_from fuel (e + 1) n | false ↦ e ]) last))
        (record { reached = h; next = ground arith })
]

pub highest_bit-Highest : (n : ℕ) → 0 < n → n < 2 ^ 64 → Highest n (highest_bit n)
unfolding highest_bit
highest_bit-Highest n h below = log_from-Highest 63 0 n (omega arith) below
