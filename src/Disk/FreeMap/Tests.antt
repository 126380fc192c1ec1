-- ===== src/Disk/FreeMap/Tests.antt =====
-- Runs of free_map.rs on a disk of sixteen sectors.
use tacos.Prelude.{ℕ, ◌-◌, ◌≤◌, ◌<◌, ◌≡◌, ◌⊎◌, inl, inr, refl, false, [], ◌∷◌, arith}
use tacos.Prelude.Bits.{test_bit, set_bit, clear_bit}
use tacos.Prelude.Outcome.{ok, err, OsError}
use tacos.Disk.FreeMap.{FreeMap, alloc, in_place_alloc, dealloc}
use tacos.Disk.FreeMap.Marks.{IsValid, used}
use tacos.Disk.FreeMap.Ranges.{Filled, used_prefix}
use tacos.Disk.FreeMap.Allocation.{
  AllocOutcome, InPlaceOutcome, alloc_lem, in_place_alloc_lem, dealloc_lem, dealloc-alloc,
}

-- Sectors 0, 1 and 3 are used.
abbrev start_map : FreeMap
start_map = record { size = 16; bits = 11 ∷ 0 ∷ [] }

start_map-IsValid : IsValid start_map
start_map-IsValid = omega arith

alloc_two : alloc 2 start_map ≡ (ok 4, record { size = 16; bits = 59 ∷ 0 ∷ [] })
unfolding alloc test_bit set_bit
alloc_two = refl

-- The last two sectors are free, and are not found.
alloc_last :
    (alloc 2 (record { size = 16; bits = 255 ∷ 63 ∷ [] })).0 ≡ err OsError.disk_sector_alloc_fail
unfolding alloc test_bit set_bit
alloc_last = refl

dealloc_stops : dealloc 0 16 start_map ≡ (ok tt, record { size = 16; bits = 8 ∷ 0 ∷ [] })
unfolding dealloc test_bit clear_bit
dealloc_stops = refl

in_place_taken : in_place_alloc 2 2 start_map ≡ (err OsError.disk_sector_alloc_fail, start_map)
unfolding in_place_alloc test_bit set_bit
in_place_taken = refl

alloc_lem_example : AllocOutcome 2 start_map
alloc_lem_example = alloc_lem 2 start_map start_map-IsValid (omega arith)

in_place_alloc_lem_example : InPlaceOutcome 4 3 start_map
in_place_alloc_lem_example = in_place_alloc_lem 4 3 start_map start_map-IsValid (omega arith)

high_free : (j : ℕ) → 14 ≤ j → j < 16 → used start_map j ≡ false
unfolding used test_bit
high_free j a b =
    let e : (j - 14 ≡ 0) ⊎ (j - 14 ≡ 1) = omega arith in
    elim e [
      | inl p ↦ let q : j ≡ 14 = omega arith in rw q
      | inr p ↦ let q : j ≡ 15 = omega arith in rw q
    ]

dealloc_lem_example :
    (after : FreeMap) × (dealloc 0 5 start_map ≡ (ok tt, after))
    × Filled false 0 (used_prefix 5 0 start_map) start_map after
dealloc_lem_example = dealloc_lem 0 5 start_map start_map-IsValid (omega arith)

abbrev five_map : FreeMap
five_map = record { size = 16; bits = 59 ∷ 0 ∷ [] }

dealloc-alloc_example :
    (back : FreeMap) × (dealloc 4 2 five_map ≡ (ok tt, back))
    × ((j : ℕ) → used back j ≡ used start_map j)
dealloc-alloc_example =
    dealloc-alloc 2 4 start_map five_map start_map-IsValid (omega arith) alloc_two
