-- ===== src/Mem/Buddy/Buddies.antt =====
-- A chunk and its buddy are the halves of one chunk, and a node that is taken off its list takes just
-- its own addresses with it.
use tacos.Prelude.{
  ℕ, zero, suc, ◌+◌, ◌-◌, ◌/◌, ◌%◌, min, ◌≤◌, ◌<◌, ◌≡◌, ◌≢◌, refl, sym, ap, ◌∙◌, List, [], ◌∷◌, leb,
  arith, ◌==◌, true, false, ◌⊎◌, inl, inr, Bool-cases,
}
use native.Mathlib.Nat.{div-eq_of_lt}
use tacos.Mem.FreeList.Chains.{delete, elem, delete-here, delete-there, elem-nil, elem-there}
use tacos.Mem.Buddy.{chunk, buddy_of}
use tacos.Mem.Buddy.Cover.{inside, cover_list, inside-halves}

chunk-positive : (k : ℕ) → 0 < chunk k
unfolding chunk
chunk-positive zero = omega arith
chunk-positive (suc k) = omega (arith, chunk-positive k)

odd_quotient : (c x : ℕ) → 0 < c → ((x / c) % 2 == 0) ≡ false → c ≤ x
odd_quotient zero x pos odd = absurd (omega arith)
odd_quotient (suc m) x pos odd = elim (Bool-cases (leb (suc m) x)) [
  | inl fits ↦ ground arith
  | inr below ↦
      let lt : x < suc m = ground arith in
      let none_fits : x / suc m ≡ 0 = div-eq_of_lt lt in
      absurd (ground (arith, ap (λ q. q % 2 == 0) none_fits))
]

-- The buddy of a chunk is the chunk of that order behind it or before it.
buddy_of-cases :
    (order block : ℕ)
    → (buddy_of order block ≡ block + chunk order)
      ⊎ ((buddy_of order block ≡ block - chunk order) × (chunk order ≤ block))
unfolding buddy_of
buddy_of-cases order block = elim (Bool-cases ((block / chunk order) % 2 == 0)) [
  | inl even ↦ inl (rw even refl)
  | inr odd ↦ inr (rw odd refl, odd_quotient (chunk order) block (chunk-positive order) odd)
]

buddy_of-other : (order block : ℕ) → block ≢ buddy_of order block
buddy_of-other order block same = elim (buddy_of-cases order block) [
  | inl behind ↦ omega (arith, chunk-positive order)
  | inr (before, fits) ↦ omega (arith, chunk-positive order)
]

-- The two buddies are the halves of the chunk that stands at the lower of them.
pub inside-buddies :
    (order block a : ℕ)
    → inside (chunk (suc order)) (min block (buddy_of order block)) a
      ≡ inside (chunk order) block a + inside (chunk order) (buddy_of order block) a
inside-buddies order block a = elim (buddy_of-cases order block) [
  | inl behind ↦
      let low : min block (buddy_of order block) ≡ block = ground arith in
      rw (low, behind) (inside-halves order block a)
  | inr (before, fits) ↦
      let low : min block (buddy_of order block) ≡ block - chunk order = ground arith in
      let up : block - chunk order + chunk order ≡ block = omega arith in
      let halves = inside-halves order (block - chunk order) a in
      omega (
        arith,
        halves,
        ap (λ x. inside (chunk (suc order)) x a) low,
        ap (λ x. inside (chunk order) x a) before,
        ap (λ x. inside (chunk order) x a) up,
      )
]

pub cover_list-delete :
    (s b : ℕ) (xs : List ℕ) (a : ℕ)
    → elem b xs ≡ true
    → cover_list s (delete b xs) a + inside s b a ≡ cover_list s xs a
cover_list-delete s b [] a h = absurd (ground (arith, elem-nil b))
cover_list-delete s b (x ∷ xs) a h = elim (Bool-cases (x == b)) [
  | inl here ↦
      let same : x ≡ b = ground arith in
      omega
        (arith, ap (λ l. cover_list s l a) (delete-here b x xs here), ap (λ y. inside s y a) same)
  | inr there ↦ omega (
    arith,
    ap (λ l. cover_list s l a) (delete-there b x xs there),
    cover_list-delete s b xs a (sym (elem-there b x xs there) ∙ h),
  )
]

-- The chunk that was put first stays when its buddy is taken off.
pub delete-buddy :
    (order block : ℕ) (rest : List ℕ)
    → delete (buddy_of order block) (block ∷ rest) ≡ block ∷ delete (buddy_of order block) rest
delete-buddy order block rest =
    let other = buddy_of-other order block in
    delete-there (buddy_of order block) block rest (ground arith)
