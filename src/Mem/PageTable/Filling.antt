-- ===== src/Mem/PageTable/Filling.antt =====
-- The rounds of the loop of `map` of pagetable.rs that enter pages in one table.
use tacos.Prelude.{
  zero, suc, Bool-cases, ◌-◌, ◌+◌, ◌*◌, ◌≤◌, Bool, inl, inr, arith, ◌==◌, ℕ, ◌%◌, ◌<◌, ◌≡◌, ◌≢◌,
  refl, ap, ◌∙◌, none, some, if◌then◌else◌,
}
use tacos.Prelude.Outcome.{Outcome, ok}
use tacos.Prelude.Run.{◌>>=◌, bind-ok, then-ok}
use tacos.Mem.Entry.{new_entry, pa_of, is_valid, contains, flag_g}
use tacos.Mem.PageTable.{
  Paging, into_va, px, write_entry, new_table, phys_addr, link_flags, walk, walk_or_create,
  map_page, map_from,
}
use tacos.Mem.PageTable.Links.{write_entry_self, write_entry_other}

pub walk-same :
    (table index : ℕ) (entries others : ℕ → ℕ → ℕ)
    → entries table index ≡ others table index
    → walk table index entries ≡ walk table index others
unfolding walk
walk-same table index entries others e =
    ap (λ v. if is_valid v then some (into_va (pa_of v)) else none) e

pub walk_or_create-there :
    (table index next : ℕ) (g : Bool) (p : Paging)
    → walk table index p.entries ≡ some next
    → walk_or_create table index g p ≡ (ok next, p)
unfolding walk_or_create
walk_or_create-there table index next g p e =
    ap
      (λ w. elim w [
        | some next ↦ (ok next, p)
        | none ↦
            (new_table >>= λ page. phys_addr page >>= λ pa. (λ p. (
              ok page,
              record p {
                entries = write_entry table index (new_entry pa (link_flags g)) p.entries;
              },
            )))
              p
      ])
      e

write_entry_index :
    (table index value : ℕ) (entries : ℕ → ℕ → ℕ) (i : ℕ)
    → index ≢ i
    → write_entry table index value entries table i ≡ entries table i
unfolding write_entry
write_entry_index table index value entries i h = ground arith

-- Pages from `pa` on have been entered in the table `l0` from the index `i0` on.
pub record Filled (n l0 i0 pa flags : ℕ) (p after : Paging) : Type 0 where
  pub entry : (i : ℕ) → i < n → after.entries l0 (i0 + i) ≡ new_entry (pa + i * 4096) flags
  pub kept : (t j : ℕ) → l0 ≢ t → after.entries t j ≡ p.entries t j
  pub below : (j : ℕ) → j < i0 → after.entries l0 j ≡ p.entries l0 j

-- The addresses of `n` pages from `va` on share these tables.
pub record Shares (i2 i1 n i0 va : ℕ) : Type 0 where
  pub top : (i : ℕ) → i < n → px 2 (va + i * 4096) ≡ i2
  pub middle : (i : ℕ) → i < n → px 1 (va + i * 4096) ≡ i1
  pub bottom : (i : ℕ) → i < n → px 0 (va + i * 4096) ≡ i0 + i

Shares-next : (i2 i1 n i0 va : ℕ) → Shares i2 i1 (suc n) i0 va → Shares i2 i1 n (i0 + 1) (va + 4096)
Shares-next i2 i1 n i0 va s =
    let next : (i : ℕ) → va + 4096 + i * 4096 ≡ va + suc i * 4096 = λ i. omega arith in
    record {
      top = λ i lt. ap (px 2) (next i) ∙ s.top (suc i) (omega arith);
      middle = λ i lt. ap (px 1) (next i) ∙ s.middle (suc i) (omega arith);
      bottom = λ i lt. ap (px 0) (next i) ∙ s.bottom (suc i) (omega arith) ∙ omega arith;
    }

-- The indexes of the pages of a range that stays in one region of 2 MiB.
pub range-Shares :
    (n va : ℕ)
    → va % 4096 ≡ 0
    → va % 2097152 + n * 4096 ≤ 2097152
    → Shares (px 2 va) (px 1 va) n (px 0 va) va
unfolding px
range-Shares n va aligned fits = record {
  top = λ i lt. omega arith;
  middle = λ i lt. omega arith;
  bottom = λ i lt. omega arith;
}

module _ (root l1 l0 i2 i1 flags : ℕ) (not_root : l0 ≢ root) (not_l1 : l0 ≢ l1) where
  -- The tables that lead to `l0`.
  pub record Leads (p : Paging) : Type 0 where
    pub top : walk root i2 p.entries ≡ some l1
    pub below : walk l1 i1 p.entries ≡ some l0

  pub Leads-kept :
      (p after : Paging)
      → ((t j : ℕ) → l0 ≢ t → after.entries t j ≡ p.entries t j)
      → Leads p
      → Leads after
  Leads-kept p after kept l = record {
    top = walk-same root i2 after.entries p.entries (kept root i2 not_root) ∙ l.top;
    below = walk-same l1 i1 after.entries p.entries (kept l1 i1 not_l1) ∙ l.below;
  }

  -- The entry of one page.
  abbrev entered : ℕ → ℕ → Paging → Paging
  entered i0 pa p = record p { entries = write_entry l0 i0 (new_entry pa flags) p.entries }

  map_page-entered :
      (n i0 pa va : ℕ) (p : Paging)
      → Shares i2 i1 (suc n) i0 va
      → Leads p
      → map_page root pa va flags p ≡ (ok tt, entered i0 pa p)
  unfolding map_page
  map_page-entered n i0 pa va p s l =
      let g = contains flags flag_g in
      let z : va ≡ va + 0 * 4096 = omega arith in
      let first : px 2 va ≡ i2 = ap (px 2) z ∙ s.top 0 (omega arith) in
      let second : px 1 va ≡ i1 = ap (px 1) z ∙ s.middle 0 (omega arith) in
      let third : px 0 va ≡ i0 = ap (px 0) z ∙ s.bottom 0 (omega arith) ∙ omega arith in
      bind-ok _ _
        (ap (λ i. walk_or_create root i g p) first ∙ walk_or_create-there root i2 l1 g p l.top)
        (bind-ok _ _
          (ap (λ i. walk_or_create l1 i g p) second ∙ walk_or_create-there l1 i1 l0 g p l.below)
          (ap {B = Outcome Unit × Paging} (λ i. (ok tt, entered i pa p)) third))

  pub map_from-Filled :
      (n i0 pa va : ℕ) (p : Paging)
      → Shares i2 i1 n i0 va
      → Leads p
      → (after : Paging) × (map_from n root pa va flags p ≡ (ok tt, after))
        × Filled n l0 i0 pa flags p after
  unfolding map_from
  map_from-Filled zero i0 pa va p s l = (
    p,
    refl,
    record { entry = λ i lt. absurd (omega arith); kept = λ t j ne. refl; below = λ j lt. refl },
  )
  map_from-Filled (suc n) i0 pa va p s l =
      let mid = entered i0 pa p in
      let kept : (t j : ℕ) → l0 ≢ t → mid.entries t j ≡ p.entries t j =
        λ t j ne. write_entry_other l0 i0 (new_entry pa flags) p.entries t j ne in
      let (after, runs, r) =
        map_from-Filled n (i0 + 1) (pa + 4096) (va + 4096) mid (Shares-next i2 i1 n i0 va s)
          (Leads-kept p mid kept l) in
      (
        after,
        then-ok _ _ (map_page-entered n i0 pa va p s l) runs,
        record {
          entry = λ i lt. elim (Bool-cases (i == 0)) [
            | inl first ↦
                let z : i ≡ 0 = ground arith in
                ap (λ i. after.entries l0 (i0 + i)) z
                ∙ ap (after.entries l0) {x = i0 + 0} {y = i0} (omega arith)
                ∙ r.below i0 (omega arith)
                ∙ write_entry_self l0 i0 (new_entry pa flags) p.entries
                ∙ ap (λ x. new_entry x flags) (omega arith)
            | inr later ↦
                let k = i - 1 in
                let e : i ≡ suc k = ground arith in
                ap (after.entries l0) (omega arith)
                ∙ r.entry k (omega arith)
                ∙ ap (λ x. new_entry x flags) (omega arith)
          ];
          kept = λ t j ne. r.kept t j ne ∙ kept t j ne;
          below = λ j lt.
              r.below j (omega arith)
              ∙ write_entry_index l0 i0 (new_entry pa flags) p.entries j
                  (λ z. absurd (omega arith));
        },
      )
