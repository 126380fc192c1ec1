-- ===== src/Mem/PageTable/Mapping.antt =====
-- The pages that `map` of pagetable.rs maps are found by `get_pte`.
use tacos.Prelude.{
  true, ◌&&◌, suc, ◌-◌, sym, ◌+◌, ◌*◌, ◌/◌, ◌≤◌, arith, ◌==◌, ℕ, ◌%◌, ◌^◌, ◌<◌, ◌≡◌, ◌≢◌, refl, ap,
  ◌∙◌, none, some, if◌then◌else◌,
}
use tacos.Prelude.Outcome.{ok, panic}
use tacos.Prelude.Run.{bind-ok, then-ok}
use tacos.Mem.Entry.{
  new_entry, pa_of, flag_of, contains, flag_g, pa_of-new_entry, flag_of-new_entry,
}
use tacos.Mem.PageTable.{
  Paging, px, write_entry, walk, walk_or_create, map_page, map_from, map, get_pte,
}
use tacos.Mem.PageTable.Links.{walk_or_create-Linked}
use tacos.Mem.PageTable.Filling.{
  walk_or_create-there, walk-same, Leads, Leads-kept, range-Shares, map_from-Filled,
}

get_pte-found :
    (root l1 l0 va : ℕ) (entries : ℕ → ℕ → ℕ)
    → walk root (px 2 va) entries ≡ some l1
    → walk l1 (px 1 va) entries ≡ some l0
    → get_pte root va entries ≡ some (entries l0 (px 0 va))
unfolding get_pte
get_pte-found root l1 l0 va entries top below =
    ap
      (λ w. elim w [
        | none ↦ none
        | some l1_table ↦ elim (walk l1_table (px 1 va) entries) [
          | none ↦ none
          | some l0_table ↦ some (entries l0_table (px 0 va))
        ]
      ])
      top
    ∙ ap (λ w. elim w [ none ↦ none | some l0_table ↦ some (entries l0_table (px 0 va)) ]) below

-- Where the first round of the loop finds or makes the tables, the loop goes on from there.
map_from-tables :
    (n root l1 l0 pa va flags : ℕ) (p p1 p2 : Paging)
    → walk_or_create root (px 2 va) (contains flags flag_g) p ≡ (ok l1, p1)
    → walk_or_create l1 (px 1 va) (contains flags flag_g) p1 ≡ (ok l0, p2)
    → walk root (px 2 va) p2.entries ≡ some l1
    → walk l1 (px 1 va) p2.entries ≡ some l0
    → map_from (suc n) root pa va flags p ≡ map_from (suc n) root pa va flags p2
unfolding map_from map_page
map_from-tables n root l1 l0 pa va flags p p1 p2 e1 e2 top below =
    let g = contains flags flag_g in
    let mid : Paging = record p2 {
      entries = write_entry l0 (px 0 va) (new_entry pa flags) p2.entries;
    } in
    let made : map_page root pa va flags p ≡ (ok tt, mid) = bind-ok _ _ e1 (bind-ok _ _ e2 refl) in
    let found : map_page root pa va flags p2 ≡ (ok tt, mid) =
      bind-ok _ _ (walk_or_create-there root (px 2 va) l1 g p2 top)
        (bind-ok _ _ (walk_or_create-there l1 (px 1 va) l0 g p2 below) refl) in
    then-ok _ _ made refl ∙ sym (then-ok _ _ found refl)

pub get_pte-map :
    (root l1 l0 pa va size flags : ℕ) (p p1 p2 : Paging)
    → walk_or_create root (va / 1073741824 % 512) (contains flags flag_g) p ≡ (ok l1, p1)
    → walk_or_create l1 (va / 2097152 % 512) (contains flags flag_g) p1 ≡ (ok l0, p2)
    → l1 < 2 ^ 64
    → l0 < 2 ^ 64
    → l1 ≢ root
    → l0 ≢ root
    → l0 ≢ l1
    → 0 < size
    → va % 4096 ≡ 0
    → pa % 4096 ≡ 0
    → va % 2097152 + size ≤ 2097152
    → pa + size ≤ 72057594037927936
    → flags < 256
    → (after : Paging) × (map root pa va size flags p ≡ (ok tt, after))
      × ((i : ℕ)
          → i * 4096 < size
          → let entry = (pa / 4096 + i) * 1024 + flags in
            (get_pte root (va + i * 4096) after.entries ≡ some entry)
            × (after.entries l0 ((va / 4096 + i) % 512) ≡ entry)
            × (pa_of entry ≡ pa + i * 4096)
            × (flag_of entry ≡ flags))
unfolding map px new_entry
get_pte-map root l1 l0 pa va size flags p p1 p2 e1 e2 h1 h0 d1 d2 d3 some_bytes va_aligned
      pa_aligned region fits small =
    let g = contains flags flag_g in
    let n = (size + 4096 - 1) / 4096 in
    let rounds : n ≡ suc (n - 1) = omega arith in
    let first = walk_or_create-Linked root (px 2 va) l1 g p p1 h1 e1 in
    let second = walk_or_create-Linked l1 (px 1 va) l0 g p1 p2 h0 e2 in
    let leads : Leads root l1 l0 (px 2 va) (px 1 va) flags d2 d3 p2 = record {
      top =
          walk-same root (px 2 va) p2.entries p1.entries (second.others root (px 2 va) d1 d2)
          ∙ first.found;
      below = second.found;
    } in
    let s = range-Shares n va va_aligned (omega arith) in
    let (after, runs, r) =
      map_from-Filled root l1 l0 (px 2 va) (px 1 va) flags d2 d3 n (px 0 va) pa va p2 s leads in
    let ends = Leads-kept root l1 l0 (px 2 va) (px 1 va) flags d2 d3 p2 after r.kept leads in
    let starts : map_from n root pa va flags p ≡ map_from n root pa va flags p2 =
      ap (λ n. map_from n root pa va flags p) rounds
      ∙ map_from-tables (n - 1) root l1 l0 pa va flags p p1 p2 e1 e2 leads.top leads.below
      ∙ ap (λ n. map_from n root pa va flags p2) (sym rounds) in
    let aligned : (pa % 4096 == 0 && va % 4096 == 0) ≡ true = ground arith in
    (
      after,
      ap (λ b. if b then map_from n root pa va flags p else (panic, p)) aligned ∙ starts ∙ runs,
      λ i lt.
          let inside : i < n = omega arith in
          let same : new_entry (pa + i * 4096) flags ≡ (pa / 4096 + i) * 1024 + flags =
            omega arith in
          let index : (va / 4096 + i) % 512 ≡ px 0 va + i = omega (arith, s.bottom i inside) in
          (
            get_pte-found root l1 l0 (va + i * 4096) after.entries
                  (ap (λ j. walk root j after.entries) (s.top i inside) ∙ ends.top)
                  (ap (λ j. walk l1 j after.entries) (s.middle i inside) ∙ ends.below)
                ∙ ap (λ j. some (after.entries l0 j)) (s.bottom i inside)
                ∙ ap some (r.entry i inside ∙ same),
            ap (after.entries l0) index ∙ r.entry i inside ∙ same,
            ap pa_of (sym same)
                ∙ pa_of-new_entry (pa + i * 4096) flags small (omega arith) (omega arith),
            ap flag_of (sym same) ∙ flag_of-new_entry (pa + i * 4096) flags small,
          ),
    )
