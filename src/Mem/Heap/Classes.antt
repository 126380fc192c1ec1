-- ===== src/Mem/Heap/Classes.antt =====
-- Which of the eight pools of malloc.rs serves a request.
use tacos.Prelude.{
  ℕ, zero, suc, ◌+◌, ◌-◌, ◌^◌, max, ◌≤◌, ◌<◌, ◌≡◌, refl, sym, ap, arith, inl, inr, Bool-cases, leb,
  subst, ◌∙◌,
}
use native.Mathlib.Nat.{pow-le-pow_right}
use tacos.Mem.Words.{trailing_zeros}
use tacos.Mem.Buddy.{order_of}
use tacos.Mem.Buddy.Allocation.{order_of-Least_within}
use tacos.Mem.Heap.{Layout, rounded, desc_index}

desc_index-power : (m : ℕ) → m ≤ 10 → desc_index (2 ^ m) ≡ m - 3
unfolding desc_index trailing_zeros
desc_index-power zero h = refl
desc_index-power (suc zero) h = refl
desc_index-power (suc (suc zero)) h = refl
desc_index-power (suc (suc (suc zero))) h = refl
desc_index-power (suc (suc (suc (suc zero)))) h = refl
desc_index-power (suc (suc (suc (suc (suc zero))))) h = refl
desc_index-power (suc (suc (suc (suc (suc (suc zero)))))) h = refl
desc_index-power (suc (suc (suc (suc (suc (suc (suc zero))))))) h = refl
desc_index-power (suc (suc (suc (suc (suc (suc (suc (suc zero)))))))) h = refl
desc_index-power (suc (suc (suc (suc (suc (suc (suc (suc (suc zero))))))))) h = refl
desc_index-power (suc (suc (suc (suc (suc (suc (suc (suc (suc (suc zero)))))))))) h = refl
desc_index-power (suc (suc (suc (suc (suc (suc (suc (suc (suc (suc (suc m))))))))))) h =
    absurd (omega arith)

max-power : (m n : ℕ) → max (2 ^ m) (2 ^ n) ≡ 2 ^ max m n
max-power m n = elim (Bool-cases (leb m n)) [
  | inl le ↦
      let up : m ≤ n = ground arith in
      let of_exponents : max m n ≡ n = omega arith in
      let grows : 2 ^ m ≤ 2 ^ n = pow-le-pow_right {n = 2} (omega arith) up in
      omega (arith, ap (λ e. 2 ^ e) of_exponents)
  | inr gt ↦
      let down : n ≤ m = ground arith in
      let of_exponents : max m n ≡ m = omega arith in
      let grows : 2 ^ n ≤ 2 ^ m = pow-le-pow_right {n = 2} (omega arith) down in
      omega (arith, ap (λ e. 2 ^ e) of_exponents)
]

power_lt : (m n : ℕ) → m < n → 2 ^ m < 2 ^ n
power_lt m n h =
    let grows : 2 ^ suc m ≤ 2 ^ n = pow-le-pow_right {n = 2} (omega arith) h in
    let positive : 2 ^ 0 ≤ 2 ^ m = pow-le-pow_right {n = 2} (omega arith) {i = 0} (omega arith) in
    omega arith

-- What a pool must be to serve a request: one of the eight, with blocks no smaller than the request and
-- its alignment; no pool of smaller blocks would do.
pub record Serves (layout : Layout) (i : ℕ) : Type 0 where
  pub exists_pool : i < 8
  pub size_fits : layout.size ≤ 2 ^ (i + 3)
  pub align_fits : layout.align ≤ 2 ^ (i + 3)
  pub least : (j : ℕ) → j < i → 2 ^ (j + 3) < max layout.size layout.align

-- A request of at most 1024 bytes, aligned to a power of two of at most 1024, goes to a pool, and the
-- pool that the heap picks is the one of the least blocks that hold it and are no smaller than its
-- alignment.
desc_index-Serves :
    (layout : Layout) (a : ℕ)
    → layout.size ≤ 1024
    → layout.align ≡ 2 ^ a
    → a ≤ 10
    → (rounded layout ≤ 1024) × Serves layout (desc_index (rounded layout))
unfolding rounded
desc_index-Serves layout a small power h =
    let o = order_of layout.size in
    let (le, r) = order_of-Least_within 10 layout.size (omega arith) small in
    let m = max o a in
    let m_le : m ≤ 10 = omega arith in
    let e : rounded layout ≡ 2 ^ m = ap (max (2 ^ o)) power ∙ max-power o a in
    let index : desc_index (rounded layout) ≡ m - 3 = ap desc_index e ∙ desc_index-power m m_le in
    let o_up : 2 ^ o ≤ 2 ^ (m - 3 + 3) = pow-le-pow_right {n = 2} (omega arith) (omega arith) in
    let a_up : 2 ^ a ≤ 2 ^ (m - 3 + 3) = pow-le-pow_right {n = 2} (omega arith) (omega arith) in
    let bound : 2 ^ m ≤ 2 ^ 10 = pow-le-pow_right {n = 2} (omega arith) m_le in
    (
      omega (arith, e),
      subst (Serves layout) (sym index) (record {
        exists_pool = omega arith;
        size_fits = omega (arith, r.enough);
        align_fits = omega arith;
        least = λ j lt. elim (Bool-cases (leb a o)) [
          | inl of_size ↦
              let fits : j + 3 < o = ground arith in
              omega (arith, r.least (j + 3) (omega arith) fits)
          | inr of_align ↦
              let fits : j + 3 < a = ground arith in omega (arith, power_lt (j + 3) a fits)
        ];
      }),
    )
