-- ===== src/Mem/Buddy/Splitting.antt =====
-- Splitting keeps the free addresses as they are.
use tacos.Prelude.{ℕ, zero, suc, ◌+◌, ◌<◌, ◌≡◌, refl, sym, ap, ◌∙◌, List, ◌∷◌, length, arith}
use tacos.Prelude.Outcome.{ok}
use tacos.Prelude.Run.{bind-ok, then-ok}
use tacos.Mem.Buddy.{Buddy, chunk, split_block, split_down}
use tacos.Mem.Buddy.Cover.{
  Sized-trans, cover-push, cover-pop, inside-halves, cover, Sized, with_list, list_at,
  with_list-Sized, list_at-with_list, push_block-with_list, pop_block-with_list,
}

-- What splitting down to `order` leaves: the same free addresses, and a chunk of that order.
pub record Split (order : ℕ) (b after : Buddy) : Type 0 where
  pub sized : Sized b after
  pub covers : (a : ℕ) → cover after a ≡ cover b a
  pub first : ℕ
  pub others : List ℕ
  pub ready : list_at after order ≡ first ∷ others

pub split_block-Split :
    (j block : ℕ) (rest : List ℕ) (b : Buddy)
    → suc j < length b.free_lists
    → list_at b (suc j) ≡ block ∷ rest
    → (after : Buddy) × (split_block j b ≡ (ok tt, after)) × Split j b after
unfolding split_block
split_block-Split j block rest b h e =
    let b1 : Buddy = with_list (suc j) rest b in
    let s1 = with_list-Sized (suc j) rest b in
    let in1 : j < length b1.free_lists = omega (arith, s1.size) in
    let half = block + chunk j in
    let b2 : Buddy = with_list j (half ∷ list_at b1 j) b1 in
    let s2 = with_list-Sized j (half ∷ list_at b1 j) b1 in
    let in2 : j < length b2.free_lists = omega (arith, s2.size) in
    let b3 : Buddy = with_list j (block ∷ list_at b2 j) b2 in
    let s3 = with_list-Sized j (block ∷ list_at b2 j) b2 in
    (
      b3,
      bind-ok _ _ (pop_block-with_list (suc j) block rest b h e)
          (then-ok _ _ (push_block-with_list j half b1 in1) (push_block-with_list j block b2 in2)),
      record {
        sized = Sized-trans s1 (Sized-trans s2 s3);
        covers = λ a. omega (
          arith,
          cover-pop (suc j) block rest b a h e,
          cover-push j half b1 a in1,
          cover-push j block b2 a in2,
          inside-halves j block a,
        );
        first = block;
        others = list_at b2 j;
        ready = list_at-with_list j (block ∷ list_at b2 j) b2 in2;
      },
    )

pub split_down-Split :
    (rounds order block : ℕ) (rest : List ℕ) (b : Buddy)
    → order + rounds < length b.free_lists
    → list_at b (order + rounds) ≡ block ∷ rest
    → (after : Buddy) × (split_down rounds order b ≡ (ok tt, after)) × Split order b after
unfolding split_down
split_down-Split zero order block rest b h e =
    let z : order + 0 ≡ order = omega arith in
    (
      b,
      refl,
      record {
        sized = record { size = refl; total = refl; allocated = refl };
        covers = λ a. refl;
        first = block;
        others = rest;
        ready = ap (list_at b) (sym z) ∙ e;
      },
    )
split_down-Split (suc rounds) order block rest b h e =
    let next : order + suc rounds ≡ suc (order + rounds) = omega arith in
    let (mid, runs, s) =
      split_block-Split (order + rounds) block rest b (omega arith)
        (ap (list_at b) (sym next) ∙ e) in
    let (after, more, t) =
      split_down-Split rounds order s.first s.others mid (omega (arith, s.sized.size)) s.ready in
    (
      after,
      then-ok _ _ runs more,
      record {
        sized = Sized-trans s.sized t.sized;
        covers = λ a. t.covers a ∙ s.covers a;
        first = t.first;
        others = t.others;
        ready = t.ready;
      },
    )
