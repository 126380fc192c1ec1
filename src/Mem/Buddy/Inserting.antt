-- ===== src/Mem/Buddy/Inserting.antt =====
-- `insert_range` of palloc.rs: the pages of a range become free, and no others.
use tacos.Prelude.{
  ℕ, zero, suc, ◌+◌, ◌-◌, ◌*◌, ◌&&◌, ◌/◌, ◌%◌, ◌^◌, ◌≤◌, ◌<◌, ◌≡◌, ◌≢◌, refl, ap, ◌∙◌, ◌∷◌, length,
  leb, ltb, if◌then◌else◌, true, false, arith, inl, inr, Bool-cases,
}
use native.Mathlib.Nat.{pow-le-pow_right}
use tacos.Prelude.Outcome.{ok, panic}
use tacos.Prelude.Run.{◌>>=◌, ◌>>◌, bind-ok, then-ok}
use tacos.Mem.Words.{round_up, round_down}
use tacos.Mem.Buddy.{Buddy, chunk, order_at, push_block, insert_from, insert_range}
use tacos.Mem.Buddy.Cover.{
  inside, cover, Sized, Sized-trans, with_list, list_at, with_list-Sized, push_block-with_list,
  cover-push,
}
use tacos.Mem.Buddy.Orders.{chunk-power, chunk-aligned, order_at-fits}

chunk-page : (k : ℕ) → 4096 ≤ chunk k
chunk-page k =
    let grows : 2 ^ 12 ≤ 2 ^ (k + 12) =
      pow-le-pow_right {n = 2} (omega arith) {i = 12} (omega arith) in
    omega (arith, chunk-power k)

inside-parts :
    (start size end a : ℕ)
    → start + size ≤ end
    → inside (end - start) start a
      ≡ inside size start a + inside (end - (start + size)) (start + size) a
inside-parts start size end a h = ground arith

inside-empty : (start end a : ℕ) → end ≤ start → inside (end - start) start a ≡ 0
inside-empty start end a h = ground arith

insert_from-more :
    (fuel start end : ℕ) (b : Buddy)
    → ltb start end ≡ true
    → insert_from (suc fuel) start end b
      ≡ (order_at start end >>= λ order.
            push_block order start >> insert_from fuel (start + chunk order) end)
          b
unfolding insert_from
insert_from-more fuel start end b e =
    ap
      (λ r. elim r [
        | true ↦
            (order_at start end >>= λ order.
            push_block order start >> insert_from fuel (start + chunk order) end)
              b
        | false ↦ (ok tt, b)
      ])
      e

insert_from-done :
    (fuel start end : ℕ) (b : Buddy)
    → ltb start end ≡ false
    → insert_from (suc fuel) start end b ≡ (ok tt, b)
unfolding insert_from
insert_from-done fuel start end b e =
    ap
      (λ r. elim r [
        | true ↦
            (order_at start end >>= λ order.
            push_block order start >> insert_from fuel (start + chunk order) end)
              b
        | false ↦ (ok tt, b)
      ])
      e

-- The addresses of a range are free once more, and no others; what is counted stays.
record Inserted (start end : ℕ) (b after : Buddy) : Type 0 where
  pub sized : Sized b after
  pub covers : (a : ℕ) → cover after a ≡ cover b a + inside (end - start) start a

insert_from-Inserted :
    (fuel start end : ℕ) (b : Buddy)
    → end ≤ start + 4096 * fuel
    → start ≢ 0
    → end < 2 ^ 64
    → start % 4096 ≡ 0
    → end % 4096 ≡ 0
    → length b.free_lists ≡ 9
    → (after : Buddy) × (insert_from fuel start end b ≡ (ok tt, after)) × Inserted start end b after
unfolding insert_from
insert_from-Inserted zero start end b enough nonnull word aligned end_aligned nine = (
  b,
  refl,
  record {
    sized = record { size = refl; total = refl; allocated = refl };
    covers = λ a. omega (arith, inside-empty start end a (omega arith));
  },
)
insert_from-Inserted (suc fuel) start end b enough nonnull word aligned end_aligned nine =
    elim (Bool-cases (ltb start end)) [
      | inl more ↦
          let left : start < end = ground arith in
          let (order, picks, low, fits) =
            order_at-fits start end b nonnull left word aligned end_aligned in
          let page = chunk-page order in
          let there : order < length b.free_lists = omega arith in
          let mid : Buddy = with_list order (start ∷ list_at b order) b in
          let s = with_list-Sized order (start ∷ list_at b order) b in
          let (after, runs, r) =
            insert_from-Inserted fuel (start + chunk order) end mid (omega arith)
              (λ z. ground arith) word (omega (arith, chunk-aligned order)) end_aligned
              (s.size ∙ nine) in
          (
            after,
            insert_from-more fuel start end b more
                ∙ bind-ok _ _ picks (then-ok _ _ (push_block-with_list order start b there) runs),
            record {
              sized = Sized-trans s r.sized;
              covers = λ a. omega (
                arith,
                r.covers a,
                cover-push order start b a there,
                inside-parts start (chunk order) end a fits,
              );
            },
          )
      | inr done ↦ (
        b,
        insert_from-done fuel start end b done,
        record {
          sized = record { size = refl; total = refl; allocated = refl };
          covers = λ a. omega (arith, inside-empty start end a (ground arith));
        },
      )
    ]

-- `insert_range` by the rounded bounds.
insert_range-rounded :
    (start end : ℕ) (b : Buddy)
    → 0 < start
    → end < 2 ^ 64
    → round_up start 4096 ≤ round_down end 4096
    → b.total + (round_down end 4096 - round_up start 4096) < 2 ^ 64
    → length b.free_lists ≡ 9
    → (after : Buddy) × (insert_range start end b ≡ (ok tt, after))
      × ((a : ℕ)
          → cover after a
            ≡ cover b a
              + inside (round_down end 4096 - round_up start 4096) (round_up start 4096) a)
      × (after.total ≡ b.total + (round_down end 4096 - round_up start 4096))
      × (after.allocated ≡ b.allocated)
unfolding insert_range round_up round_down cover
insert_range-rounded start end b pos word fits sum nine =
    let first = round_up start 4096 in
    let past = round_down end 4096 in
    let some_pages : leb first past && ltb (b.total + (past - first)) (2 ^ 64) ≡ true =
      ground arith in
    let counted : Buddy = record b { total = b.total + (past - first) } in
    let (after, runs, r) =
      insert_from-Inserted ((past - first) / 4096) first past counted (omega arith)
        (λ z. omega arith) (omega arith) (omega arith) (omega arith) nine in
    (
      after,
      then-ok _ _ {s' = counted} (ap (λ c. if c then (ok tt, counted) else (panic, b)) some_pages)
          runs,
      λ a. r.covers a,
      r.sized.total,
      r.sized.allocated,
    )

round_up-first :
    (start first : ℕ)
    → first % 4096 ≡ 0
    → start ≤ first
    → first < start + 4096
    → round_up start 4096 ≡ first
unfolding round_up
round_up-first start first aligned lo hi = omega arith

round_down-past :
    (end past : ℕ) → past % 4096 ≡ 0 → past ≤ end → end < past + 4096 → round_down end 4096 ≡ past
unfolding round_down
round_down-past end past aligned lo hi = omega arith

-- Let `first` be the least multiple of 4096 no less than `start`, and `past` the greatest no greater
-- than `end`. With the nine free lists, and where `start` is positive, `end` is below 2 ^ 64, `first` is
-- no greater than `past`, and the total and `past - first` are below 2 ^ 64 together, `insert_range` of
-- `start` and `end` ends with success: the free chunks then cover each address from `first` to `past`,
-- `past` excluded, once more than before, and every other address as before; the `past - first` bytes
-- are added to the total, and as many as before are allocated.
pub insert_range-Inserted :
    (start end first past : ℕ) (b : Buddy)
    → 0 < start
    → end < 2 ^ 64
    → first % 4096 ≡ 0
    → start ≤ first
    → first < start + 4096
    → past % 4096 ≡ 0
    → past ≤ end
    → end < past + 4096
    → first ≤ past
    → b.total + (past - first) < 2 ^ 64
    → length b.free_lists ≡ 9
    → (after : Buddy) × (insert_range start end b ≡ (ok tt, after))
      × ((a : ℕ) → cover after a ≡ cover b a + inside (past - first) first a)
      × (after.total ≡ b.total + (past - first))
      × (after.allocated ≡ b.allocated)
insert_range-Inserted start end first past b pos word aligned lo hi aligned_past lo_past hi_past
      some_pages sum nine =
    let e1 = round_up-first start first aligned lo hi in
    let e2 = round_down-past end past aligned_past lo_past hi_past in
    let (after, runs, covers, total, same) =
      insert_range-rounded start end b pos word (omega arith) (omega (arith, e1, e2)) nine in
    (after, runs, λ a. covers a ∙ rw (e1, e2) refl, total ∙ rw (e1, e2) refl, same)
