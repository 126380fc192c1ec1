-- ===== src/Mem/Buddy/Ownership.antt =====
-- Who owns an address, over several calls of the allocator.
use tacos.Prelude.{ℕ, ◌+◌, ◌≤◌, ◌≡◌, sym, ap, ◌∙◌, length, arith, inl, inr}
use tacos.Prelude.Outcome.{ok}
use tacos.Mem.Buddy.{Buddy, chunk, order_of, alloc, dealloc}
use tacos.Mem.Buddy.Cover.{inside, cover}
use tacos.Mem.Buddy.Allocation.{Allocated, alloc-cases}
use tacos.Mem.Buddy.Merging.{dealloc-Deallocated}

-- No address lies in two free chunks.
unfoldable pub IsDisjoint : Buddy → Type 0
IsDisjoint b = (a : ℕ) → cover b a ≤ 1

-- A call that answered has done what `Allocated` says.
pub alloc-ok :
    (n block : ℕ) (b after : Buddy)
    → n ≤ 256
    → length b.free_lists ≡ 9
    → alloc n b ≡ (ok block, after)
    → Allocated (order_of n) block b after
alloc-ok n block b after h nine e = elim (alloc-cases n b h nine) [
  | inl (x, y, runs, r) ↦
      let at : y ≡ after = ap (λ p. p.1) (sym runs ∙ e) in
      let value : x ≡ block = cc in rw (sym at, sym value) r
  | inr (stops, none_there) ↦ cc
]

-- Two chunks that are allocated one after the other, of at most 256 pages each, have no address in
-- common, when no address lay in two free chunks before; after both calls no address lies in two free
-- chunks, or in a free chunk and in one of them.
pub alloc-apart :
    (n m x y : ℕ) (b b1 b2 : Buddy)
    → n ≤ 256
    → m ≤ 256
    → length b.free_lists ≡ 9
    → IsDisjoint b
    → alloc n b ≡ (ok x, b1)
    → alloc m b1 ≡ (ok y, b2)
    → IsDisjoint b2
      × ((a : ℕ)
          → cover b2 a + inside (chunk (order_of m)) y a + inside (chunk (order_of n)) x a ≤ 1)
unfolding IsDisjoint
alloc-apart n m x y b b1 b2 hn hm nine apart e f =
    let r = alloc-ok n x b b1 hn nine e in
    let s = alloc-ok m y b1 b2 hm (r.size ∙ nine) f in
    (
      λ a. omega (arith, apart a, r.covers a, s.covers a),
      λ a. omega (arith, apart a, r.covers a, s.covers a),
    )

-- A chunk that is given back as it was allocated leaves the same addresses free as before the two
-- calls, and the same numbers of pages, allocated and in all; that the call succeeds is part of it.
pub dealloc-alloc_pages :
    (n block : ℕ) (b mid : Buddy)
    → n ≤ 256
    → length b.free_lists ≡ 9
    → alloc n b ≡ (ok block, mid)
    → (after : Buddy) × (dealloc block n mid ≡ (ok tt, after))
      × ((a : ℕ) → cover after a ≡ cover b a)
      × (after.allocated ≡ b.allocated)
      × (after.total ≡ b.total)
dealloc-alloc_pages n block b mid h nine e =
    let r = alloc-ok n block b mid h nine e in
    let (after, runs, s) =
      dealloc-Deallocated block n mid h (r.size ∙ nine) (omega (arith, r.allocated)) in
    (
      after,
      runs,
      λ a. s.covers a ∙ r.covers a,
      omega (arith, s.allocated, r.allocated),
      s.total ∙ r.total,
    )
