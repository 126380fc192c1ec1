-- ===== src/Mem/PageTable/Links.antt =====
-- A table that `walk_or_create` of pagetable.rs answers is found by `walk`.
use tacos.Prelude.{
  ℕ, ◌+◌, ◌-◌, ◌%◌, ◌^◌, ◌<◌, ◌≡◌, ◌≢◌, refl, sym, ap, ◌∙◌, subst, Bool, true, false, none, some,
  leb, ◌==◌, if◌then◌else◌, arith,
}
use tacos.Prelude.Outcome.{ok}
use tacos.Prelude.Run.{◌>>=◌, bind-inv, then-inv, ok-inv, check-inv}
use tacos.Mem.Entry.{new_entry, pa_of, flag_of, is_valid, contains, pa_of-new_entry}
use tacos.Mem.PageTable.{
  Paging, vm_offset, into_va, phys_addr, from_raw, write_entry, zero_table, new_table, kalloc_page,
  walk, link_flags, walk_or_create,
}

pub write_entry_self :
    (table index value : ℕ) (entries : ℕ → ℕ → ℕ)
    → write_entry table index value entries table index ≡ value
unfolding write_entry
write_entry_self table index value entries = ground arith

pub write_entry_other :
    (table index value : ℕ) (entries : ℕ → ℕ → ℕ) (t i : ℕ)
    → table ≢ t
    → write_entry table index value entries t i ≡ entries t i
unfolding write_entry
write_entry_other table index value entries t i h = ground arith

zero_table-other :
    (table : ℕ) (entries : ℕ → ℕ → ℕ) (t i : ℕ)
    → table ≢ t
    → zero_table table entries t i ≡ entries t i
unfolding zero_table
zero_table-other table entries t i h = ground arith

from_raw-inv :
    (at page : ℕ) (p p' : Paging)
    → from_raw at p ≡ (ok page, p')
    → (at % 4096 ≡ 0) × (at ≡ page) × (p ≡ p')
unfolding from_raw
from_raw-inv at page p p' e =
    let (aligned, same, unchanged) = check-inv (at % 4096 == 0) at page p p' e in
    (ground arith, same, unchanged)

kalloc_page-entries :
    (p p' : Paging) (page : ℕ)
    → kalloc_page p ≡ (ok page, p')
    → (t i : ℕ) → p.entries t i ≡ p'.entries t i
unfolding kalloc_page
kalloc_page-entries p p' page e t i = ap (λ r. r.1.entries t i) e

-- What `new_table` answers is aligned, and no other table has changed.
new_table-inv :
    (p p' : Paging) (page : ℕ)
    → new_table p ≡ (ok page, p')
    → (page % 4096 ≡ 0) × ((t i : ℕ) → page ≢ t → p'.entries t i ≡ p.entries t i)
unfolding new_table
new_table-inv p p' page e =
    let (at, p1, answered, rest) = bind-inv kalloc_page _ e in
    let (_, p2, cleared, last) = then-inv _ (from_raw at) rest in
    let (aligned, same, unchanged) = from_raw-inv at page p2 p' last in
    let (_, made) = ok-inv cleared in
    (
      subst (λ x. x % 4096 ≡ 0) same aligned,
      λ t i apart.
          sym (ap (λ q. q.entries t i) unchanged)
          ∙ sym (ap (λ q. q.entries t i) made)
          ∙ zero_table-other at p1.entries t i (λ z. apart (sym same ∙ z))
          ∙ sym (kalloc_page-entries p p1 at answered t i),
    )

link-valid : (g : Bool) (pa : ℕ) → is_valid (new_entry pa (link_flags g)) ≡ true
unfolding is_valid new_entry flag_of contains
link-valid true pa = ground arith
link-valid false pa = ground arith

link-small : (g : Bool) → link_flags g < 256
link-small true = omega arith
link-small false = omega arith

high_address :
    (page pa : ℕ) → leb vm_offset page ≡ true → page - vm_offset ≡ pa → pa + vm_offset ≡ page
high_address page pa high offset = ground arith

write_entry-walk :
    (table index pa page : ℕ) (g : Bool) (entries : ℕ → ℕ → ℕ)
    → pa < 72057594037927936
    → pa % 4096 ≡ 0
    → pa + vm_offset ≡ page
    → walk table index (write_entry table index (new_entry pa (link_flags g)) entries) ≡ some page
unfolding walk
write_entry-walk table index pa page g entries fits aligned back =
    let entry = new_entry pa (link_flags g) in
    let read = write_entry_self table index entry entries in
    let valid : is_valid (write_entry table index entry entries table index) ≡ true =
      ap is_valid read ∙ link-valid g pa in
    ap
      (λ v.
        if v
        then some (into_va (pa_of (write_entry table index entry entries table index)))
        else none)
      valid
    ∙ ap (λ e. some (into_va (pa_of e))) read
    ∙ ap (λ x. some (into_va x)) (pa_of-new_entry pa (link_flags g) (link-small g) fits aligned)
    ∙ ap some back

-- What `walk_or_create` answers, an address of 64 bits, is what `walk` finds afterwards; and of the
-- tables other than these two, no entry has changed.
pub record Linked (table index next : ℕ) (p p' : Paging) : Type 0 where
  pub found : walk table index p'.entries ≡ some next
  pub others : (t i : ℕ) → table ≢ t → next ≢ t → p'.entries t i ≡ p.entries t i

pub walk_or_create-Linked :
    (table index next : ℕ) (g : Bool) (p p' : Paging)
    → next < 2 ^ 64
    → walk_or_create table index g p ≡ (ok next, p')
    → Linked table index next p p'
unfolding walk_or_create
walk_or_create-Linked table index next g p p' h =
    elim (walk table index p.entries)
        as (λ w.
          walk table index p.entries ≡ w
          → elim w [
            | some next ↦ (ok next, p)
            | none ↦
                (new_table >>= λ page. phys_addr page >>= λ pa. (λ p. (
                  ok page,
                  record p {
                    entries = write_entry table index (new_entry pa (link_flags g)) p.entries;
                  },
                )))
                  p
          ]
            ≡ (ok next, p')
          → Linked table index next p p') [
            | some there ↦ λ w e.
                let (same, unchanged) = ok-inv e in
                record {
                  found = sym (ap (λ q. walk table index q.entries) unchanged) ∙ w ∙ ap some same;
                  others = λ t i apart fresh. sym (ap (λ q. q.entries t i) unchanged);
                }
            | none ↦ λ w e.
                let (page, p1, made, rest) = bind-inv new_table _ e in
                let (pa, p2, phys, last) = bind-inv (phys_addr page) _ rest in
                let (aligned, untouched) = new_table-inv p p1 page made in
                let (high, offset, unchanged) =
                  check-inv (leb vm_offset page) (page - vm_offset) pa p1 p2 phys in
                let (same, written) = ok-inv last in
                record {
                  found =
                      sym (ap (λ q. walk table index q.entries) written)
                      ∙ write_entry-walk table index pa page g p2.entries
                          (omega (arith, offset, same)) (omega (arith, offset, aligned))
                          (high_address page pa high offset)
                      ∙ ap some same;
                  others = λ t i apart fresh.
                      sym (ap (λ q. q.entries t i) written)
                      ∙ write_entry_other table index (new_entry pa (link_flags g)) p2.entries t i
                          apart
                      ∙ sym (ap (λ q. q.entries t i) unchanged)
                      ∙ untouched t i (λ z. fresh (sym same ∙ z));
                }
          ]
      refl
