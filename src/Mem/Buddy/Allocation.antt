-- ===== src/Mem/Buddy/Allocation.antt =====
-- `alloc` of palloc.rs takes free addresses and nothing else.
use tacos.Prelude.{
  ℕ, zero, suc, ◌+◌, ◌-◌, ◌^◌, ◌*◌, ◌≤◌, ◌<◌, ◌≡◌, refl, sym, ap, ◌∙◌, List, [], ◌∷◌, length,
  get_or, leb, arith, ◌==◌, true, false, ◌⊎◌, inl, inr, Bool-cases, subst,
}
use tacos.Prelude.Outcome.{ok, panic}
use tacos.Prelude.Run.{bind-ok, then-ok}
use tacos.Mem.Buddy.{Buddy, chunk, order_from, order_of, take_chunk, search_from, alloc}
use tacos.Mem.Buddy.Cover.{
  inside, cover, with_list, list_at, with_list-Sized, cover-pop, pop_block-with_list,
}
use tacos.Mem.Buddy.Splitting.{split_down-Split}

-- What `alloc` of a chunk of order `order` leaves when it answers `block`: the chunk was free as
-- often as it is not now, and no other address has changed.
pub record Allocated (order block : ℕ) (b after : Buddy) : Type 0 where
  pub covers : (a : ℕ) → cover after a + inside (chunk order) block a ≡ cover b a
  pub size : length after.free_lists ≡ length b.free_lists
  pub total : after.total ≡ b.total
  pub allocated : after.allocated ≡ b.allocated + 2 ^ order

take_chunk-Allocated :
    (above order first : ℕ) (rest : List ℕ) (b : Buddy)
    → order + above < length b.free_lists
    → list_at b (order + above) ≡ first ∷ rest
    → (block : ℕ) × (after : Buddy) × (take_chunk above order b ≡ (ok block, after))
      × Allocated order block b after
unfolding take_chunk cover with_list list_at
take_chunk-Allocated above order first rest b h e =
    let (mid, runs, s) = split_down-Split above order first rest b h e in
    let counted : Buddy = record mid { allocated = mid.allocated + 2 ^ order } in
    let fits : order < length counted.free_lists = omega (arith, s.sized.size) in
    let after : Buddy = with_list order s.others counted in
    let z = with_list-Sized order s.others counted in
    (
      s.first,
      after,
      then-ok _ _ runs (
          then-ok _ _ refl
            (bind-ok _ _ (pop_block-with_list order s.first s.others counted fits s.ready) refl)),
      record {
        covers = λ a. cover-pop order s.first s.others counted a fits s.ready ∙ s.covers a;
        size = z.size ∙ s.sized.size;
        total = z.total ∙ s.sized.total;
        allocated = z.allocated ∙ ap (λ n. n + 2 ^ order) s.sized.allocated;
      },
    )

-- `o` is the least exponent from `k` on whose power of two is no less than `n`.
pub record Least (k n o : ℕ) : Type 0 where
  pub from : k ≤ o
  pub enough : n ≤ 2 ^ o
  pub least : (j : ℕ) → k ≤ j → j < o → 2 ^ j < n

order_from-hit : (fuel k n : ℕ) → leb n (2 ^ k) ≡ true → order_from (suc fuel) k n ≡ k
unfolding order_from
order_from-hit fuel k n e = ap (λ r. elim r [ true ↦ k | false ↦ order_from fuel (k + 1) n ]) e

order_from-miss :
    (fuel k n : ℕ) → leb n (2 ^ k) ≡ false → order_from (suc fuel) k n ≡ order_from fuel (k + 1) n
unfolding order_from
order_from-miss fuel k n e = ap (λ r. elim r [ true ↦ k | false ↦ order_from fuel (k + 1) n ]) e

hit-Least : (fuel k n : ℕ) → leb n (2 ^ k) ≡ true → Least k n (order_from (suc fuel) k n)
hit-Least fuel k n fits =
    subst (Least k n) (sym (order_from-hit fuel k n fits)) (record {
      from = omega arith;
      enough = ground arith;
      least = λ j lo hi. absurd (omega arith);
    })

order_from-Least :
    (fuel d k n : ℕ)
    → d < fuel
    → n ≤ 2 ^ (k + d)
    → (order_from fuel k n ≤ k + d) × Least k n (order_from fuel k n)
order_from-Least zero d k n h le = absurd (omega arith)
order_from-Least (suc fuel) zero k n h le =
    let z : k + 0 ≡ k = omega arith in
    let fits : leb n (2 ^ k) ≡ true = ground (arith, ap (λ e. 2 ^ e) z) in
    (omega (arith, order_from-hit fuel k n fits), hit-Least fuel k n fits)
order_from-Least (suc fuel) (suc d) k n h le = elim (Bool-cases (leb n (2 ^ k))) [
  | inl fits ↦ (omega (arith, order_from-hit fuel k n fits), hit-Least fuel k n fits)
  | inr more ↦
      let e : k + suc d ≡ k + 1 + d = omega arith in
      let (bound, r) =
        order_from-Least fuel d (k + 1) n (omega arith) (omega (arith, ap (λ e. 2 ^ e) e)) in
      let same = order_from-miss fuel k n more in
      (
        omega (arith, same),
        subst (Least k n) (sym same) (record {
          from = omega (arith, r.from);
          enough = r.enough;
          least = λ j lo hi. elim (Bool-cases (j == k)) [
            | inl first ↦ let is_k : j ≡ k = ground arith in ground (arith, ap (λ i. 2 ^ i) is_k)
            | inr later ↦ r.least j (ground arith) hi
          ];
        }),
      )
]

-- The order is the least whose power of two is no less.
pub order_of-Least_within :
    (d n : ℕ) → d < 64 → n ≤ 2 ^ d → (order_of n ≤ d) × Least 0 n (order_of n)
unfolding order_of
order_of-Least_within d n h le =
    let z : 0 + d ≡ d = omega arith in
    let (bound, r) = order_from-Least 64 d 0 n h (omega (arith, ap (λ e. 2 ^ e) z)) in
    (omega arith, r)

pub order_of-Least : (n : ℕ) → n ≤ 256 → (order_of n ≤ 8) × Least 0 n (order_of n)
order_of-Least n h = order_of-Least_within 8 n (omega arith) h

search_from-cases :
    (rounds above order : ℕ) (b : Buddy)
    → order + above + rounds ≤ length b.free_lists
    → ((block : ℕ) × (after : Buddy) × (search_from rounds above order b ≡ (ok block, after))
        × Allocated order block b after)
      ⊎ ((search_from rounds above order b ≡ (panic, b))
          × ((i : ℕ) → order + above ≤ i → i < order + above + rounds → list_at b i ≡ []))
unfolding search_from list_at
search_from-cases zero above order b h = inr (refl, λ i lo hi. absurd (omega arith))
search_from-cases (suc rounds) above order b h =
    elim (get_or b.free_lists (order + above) [])
        as (λ l.
          get_or b.free_lists (order + above) [] ≡ l
          → ((block : ℕ) × (after : Buddy) × (elim l [
            | [] ↦ search_from rounds (above + 1) order b
            | block ∷ rest ↦ take_chunk above order b
          ]
                ≡ (ok block, after))
              × Allocated order block b after)
            ⊎ ((elim l [
              | [] ↦ search_from rounds (above + 1) order b
              | block ∷ rest ↦ take_chunk above order b
            ]
                  ≡ (panic, b))
                × ((i : ℕ)
                    → order + above ≤ i
                    → i < order + above + suc rounds
                    → list_at b i ≡ []))) [
                      | [] ↦ λ e.
                          elim (search_from-cases rounds (above + 1) order b (omega arith)) [
                            | inl found ↦ inl found
                            | inr (stops, none_there) ↦ inr (
                              stops,
                              λ i lo hi. elim (Bool-cases (i == order + above)) [
                                | inl here ↦
                                    let same : i ≡ order + above = ground arith in
                                    ap (λ i. get_or b.free_lists i []) same ∙ e
                                | inr later ↦ none_there i (ground arith) (omega arith)
                              ],
                            )
                          ]
                      | first ∷ rest ↦
                          λ e. inl (take_chunk-Allocated above order first rest b (omega arith) e)
                    ]
      refl

-- A chunk of an order is two to that power of pages of 4096 bytes.
chunk-pages : (k : ℕ) → chunk k ≡ 4096 * 2 ^ k
unfolding chunk
chunk-pages zero = refl
chunk-pages (suc k) = omega (arith, chunk-pages k)

-- `alloc` by the order that it takes from.
pub alloc-cases :
    (n : ℕ) (b : Buddy)
    → n ≤ 256
    → length b.free_lists ≡ 9
    → ((block : ℕ) × (after : Buddy) × (alloc n b ≡ (ok block, after))
        × Allocated (order_of n) block b after)
      ⊎ ((alloc n b ≡ (panic, b)) × ((i : ℕ) → order_of n ≤ i → i < 9 → list_at b i ≡ []))
unfolding alloc
alloc-cases n b h nine =
    let small : leb n 256 ≡ true = ground arith in
    let (le, _) = order_of-Least n h in
    elim (search_from-cases (length b.free_lists - order_of n) 0 (order_of n) b (omega arith)) [
      | inl (block, after, runs, r) ↦ inl (block, after, rw small runs, r)
      | inr (stops, none_there) ↦
          inr (rw small stops, λ i lo hi. none_there i (omega arith) (omega arith))
    ]

-- With the nine free lists, `alloc` of at most 256 pages: of the orders of chunks there is one, at most
-- 8, whose chunk has no fewer pages than asked for, while every lower order has fewer. Either `alloc`
-- answers a chunk of that order, whose addresses were free: afterwards the free chunks cover each of its
-- 4096 bytes per page once less, and every other address as before. Or all lists from that order on
-- are empty, and the kernel panics.
pub alloc-Allocated :
    (n : ℕ) (b : Buddy)
    → n ≤ 256
    → length b.free_lists ≡ 9
    → (order : ℕ) × (order ≤ 8)
      × (n ≤ 2 ^ order)
      × ((j : ℕ) → j < order → 2 ^ j < n)
      × (chunk order ≡ 4096 * 2 ^ order)
      × (((block : ℕ) × (after : Buddy) × (alloc n b ≡ (ok block, after))
            × Allocated order block b after)
          ⊎ ((alloc n b ≡ (panic, b)) × ((i : ℕ) → order ≤ i → i < 9 → list_at b i ≡ [])))
alloc-Allocated n b h nine =
    let (le, l) = order_of-Least n h in
    (
      order_of n,
      le,
      l.enough,
      λ j lt. l.least j (omega arith) lt,
      chunk-pages (order_of n),
      alloc-cases n b h nine,
    )
