-- ===== src/Mem/Buddy/Merging.antt =====
-- `dealloc` of palloc.rs gives the addresses of the chunk back and no others: merging two buddies
-- keeps the free addresses as they are.
use tacos.Prelude.{
  ℕ, zero, suc, ◌+◌, ◌-◌, ◌^◌, min, ◌≤◌, ◌<◌, ◌≡◌, refl, sym, ap, ◌∙◌, List, ◌∷◌, length, leb,
  if◌then◌else◌, arith, true, false, inl, inr, Bool-cases,
}
use tacos.Prelude.Outcome.{ok, panic}
use tacos.Prelude.Run.{◌>>◌, bind-ok, then-ok}
use tacos.Mem.FreeList.Chains.{delete, elem}
use tacos.Mem.Buddy.{Buddy, chunk, order_of, buddy_of, merge_pair, merge_up, dealloc}
use tacos.Mem.Buddy.Cover.{
  inside, cover, Sized, Sized-trans, with_list, list_at, with_list-list_at, cover-with_list,
  with_list-Sized, list_at-with_list, push_block-with_list, pop_block-with_list, cover-push,
  cover-pop,
}
use tacos.Mem.Buddy.Allocation.{order_of-Least}
use tacos.Mem.Buddy.Buddies.{inside-buddies, cover_list-delete, delete-buddy}

-- What is free, and how much, stays as it is.
record Same (b after : Buddy) : Type 0 where
  pub sized : Sized b after
  pub covers : (a : ℕ) → cover after a ≡ cover b a

merge_pair-Same :
    (order block : ℕ) (rest : List ℕ) (b : Buddy)
    → suc order < length b.free_lists
    → list_at b order ≡ block ∷ rest
    → elem (buddy_of order block) (list_at b order) ≡ true
    → (after : Buddy) × (merge_pair order block (buddy_of order block) b ≡ (ok tt, after))
      × Same b after
      × (others : List ℕ) × (list_at after (suc order) ≡ min block (buddy_of order block) ∷ others)
unfolding merge_pair
merge_pair-Same order block rest b h e there =
    let buddy = buddy_of order block in
    let lower = min block buddy in
    let here = list_at b order in
    let b1 : Buddy = with_list order (delete buddy here) b in
    let s1 = with_list-Sized order (delete buddy here) b in
    let in0 : order < length b.free_lists = omega arith in
    let in1 : order < length b1.free_lists = omega (arith, s1.size) in
    let front : list_at b1 order ≡ block ∷ delete buddy rest =
      list_at-with_list order (delete buddy here) b in0
      ∙ ap (delete buddy) e
      ∙ delete-buddy order block rest in
    let b2 : Buddy = with_list order (delete buddy rest) b1 in
    let s2 = with_list-Sized order (delete buddy rest) b1 in
    let in2 : suc order < length b2.free_lists = omega (arith, s1.size, s2.size) in
    let merged = lower ∷ list_at b2 (suc order) in
    let b3 : Buddy = with_list (suc order) merged b2 in
    (
      b3,
      then-ok _ _ {s' = b1} (ap (λ b. (ok tt, b)) (sym (with_list-list_at order b (delete buddy))))
          (bind-ok _ _ (pop_block-with_list order block (delete buddy rest) b1 in1 front)
            (push_block-with_list (suc order) lower b2 in2)),
      record {
        sized = Sized-trans s1 (Sized-trans s2 (with_list-Sized (suc order) merged b2));
        covers = λ a. omega (
          arith,
          cover-push (suc order) lower b2 a in2,
          cover-pop order block (delete buddy rest) b1 a in1 front,
          cover-with_list order (delete buddy here) b a in0,
          cover_list-delete (chunk order) buddy here a there,
          inside-buddies order block a,
        );
      },
      list_at b2 (suc order),
      list_at-with_list (suc order) merged b2 in2,
    )

merge_up-there :
    (rounds order block : ℕ) (b : Buddy)
    → elem (buddy_of order block) (list_at b order) ≡ true
    → merge_up (suc rounds) block order b
      ≡ (merge_pair order block (buddy_of order block)
            >> merge_up rounds (min block (buddy_of order block)) (suc order))
          b
unfolding merge_up list_at
merge_up-there rounds order block b e =
    ap
      (λ r. elim r [
        | true ↦
            (merge_pair order block (buddy_of order block)
                >> merge_up rounds (min block (buddy_of order block)) (suc order))
              b
        | false ↦ (ok tt, b)
      ])
      e

merge_up-missing :
    (rounds order block : ℕ) (b : Buddy)
    → elem (buddy_of order block) (list_at b order) ≡ false
    → merge_up (suc rounds) block order b ≡ (ok tt, b)
unfolding merge_up list_at
merge_up-missing rounds order block b e =
    ap
      (λ r. elim r [
        | true ↦
            (merge_pair order block (buddy_of order block)
                >> merge_up rounds (min block (buddy_of order block)) (suc order))
              b
        | false ↦ (ok tt, b)
      ])
      e

merge_up-Same :
    (rounds order block : ℕ) (rest : List ℕ) (b : Buddy)
    → order + rounds < length b.free_lists
    → list_at b order ≡ block ∷ rest
    → (after : Buddy) × (merge_up rounds block order b ≡ (ok tt, after)) × Same b after
unfolding merge_up
merge_up-Same zero order block rest b h e = (
  b,
  refl,
  record { sized = record { size = refl; total = refl; allocated = refl }; covers = λ a. refl },
)
merge_up-Same (suc rounds) order block rest b h e =
    let buddy = buddy_of order block in
    elim (Bool-cases (elem buddy (list_at b order))) [
      | inl there ↦
          let (mid, runs, s, others, front) =
            merge_pair-Same order block rest b (omega arith) e there in
          let (after, more, t) =
            merge_up-Same rounds (suc order) (min block buddy) others mid
              (omega (arith, s.sized.size)) front in
          (
            after,
            merge_up-there rounds order block b there ∙ then-ok _ _ runs more,
            record { sized = Sized-trans s.sized t.sized; covers = λ a. t.covers a ∙ s.covers a },
          )
      | inr missing ↦ (
        b,
        merge_up-missing rounds order block b missing,
        record {
          sized = record { size = refl; total = refl; allocated = refl };
          covers = λ a. refl;
        },
      )
    ]

-- What `dealloc` of a chunk of order `order` at `block` leaves: each address of the chunk is free once
-- more, and no other address has changed.
pub record Deallocated (order block : ℕ) (b after : Buddy) : Type 0 where
  pub covers : (a : ℕ) → cover after a ≡ cover b a + inside (chunk order) block a
  pub size : length after.free_lists ≡ length b.free_lists
  pub total : after.total ≡ b.total
  pub allocated : after.allocated + 2 ^ order ≡ b.allocated

-- With the nine free lists, and at least the pages of the chunk counted as allocated, `dealloc` of at
-- most 256 pages succeeds; however far the chunk is merged with its buddies, the free chunks then
-- cover each address of the chunk once more than before, and every other address as before.
pub dealloc-Deallocated :
    (block n : ℕ) (b : Buddy)
    → n ≤ 256
    → length b.free_lists ≡ 9
    → 2 ^ order_of n ≤ b.allocated
    → (after : Buddy) × (dealloc block n b ≡ (ok tt, after))
      × Deallocated (order_of n) block b after
unfolding dealloc cover
dealloc-Deallocated block n b h nine counted =
    let order = order_of n in
    let (le, _) = order_of-Least n h in
    let fits : order < length b.free_lists = omega arith in
    let pushed : Buddy = with_list order (block ∷ list_at b order) b in
    let s = with_list-Sized order (block ∷ list_at b order) b in
    let (merged, runs, t) =
      merge_up-Same (8 - order) order block (list_at b order) pushed (omega (arith, s.size))
        (list_at-with_list order (block ∷ list_at b order) b fits) in
    let enough : leb (2 ^ order) merged.allocated ≡ true =
      ground (arith, s.allocated, t.sized.allocated) in
    let after : Buddy = record merged { allocated = merged.allocated - 2 ^ order } in
    (
      after,
      then-ok _ _ (push_block-with_list order block b fits)
          (then-ok _ _ runs (ap (λ r. if r then (ok tt, after) else (panic, merged)) enough)),
      record {
        covers = λ a. t.covers a ∙ cover-push order block b a fits;
        size = t.sized.size ∙ s.size;
        total = t.sized.total ∙ s.total;
        allocated = omega (arith, s.allocated, t.sized.allocated);
      },
    )
