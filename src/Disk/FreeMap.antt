-- ===== src/Disk/FreeMap.antt =====
-- src/fs/disk/free_map.rs: the bitmap of used sectors. A method runs on the map and returns an
-- outcome; `u32` sums that do not fit panic, as they do under the dev profile.
pub mod Marks
pub mod Ranges
pub mod Allocation
mod Tests
use tacos.Prelude.{
  ℕ, zero, suc, ◌+◌, ◌-◌, ◌/◌, ◌%◌, ◌^◌, Bool, true, false, Option, none, some, List, get_elem?,
  set, ltb, leb, ◌==◌, if◌then◌else◌, replicate,
}
use tacos.Prelude.Bits.{test_bit, set_bit, clear_bit}
use tacos.Prelude.Outcome.{Outcome, ok, panic, OsError, Exec, pure, raise, crash, ◌>>=◌, ◌>>◌}

pub record FreeMap : Type 0 where
  pub size : ℕ
  pub bits : List ℕ

abbrev pub u32_mod : ℕ
u32_mod = 2 ^ 32

-- `assert!(sector < self.size)`, then the indexing of `self.bits`, which panics out of range.
pub get : ℕ → Exec FreeMap Bool
get sector m =
    if ltb sector m.size
    then (elim (get_elem? m.bits (sector / 8)) [
      | none ↦ (panic, m)
      | some b ↦ (ok (test_bit b (sector % 8)), m)
    ])
    else (panic, m)

pub set_sector : ℕ → Exec FreeMap Unit
set_sector sector m =
    if ltb sector m.size
    then (elim (get_elem? m.bits (sector / 8)) [
      | none ↦ (panic, m)
      | some b ↦ (ok tt, record m { bits = set m.bits (sector / 8) (set_bit b (sector % 8)) })
    ])
    else (panic, m)

pub reset : ℕ → Exec FreeMap Unit
reset sector m =
    if ltb sector m.size
    then (elim (get_elem? m.bits (sector / 8)) [
      | none ↦ (panic, m)
      | some b ↦ (ok tt, record m { bits = set m.bits (sector / 8) (clear_bit b (sector % 8)) })
    ])
    else (panic, m)

-- `for j in i..i + cnt { self.set(j) }`
pub set_range : ℕ → ℕ → Exec FreeMap Unit
set_range zero i = pure tt
set_range (suc cnt) i = set_sector i >>= λ _. set_range cnt (i + 1)

-- The inner loop of `alloc`: `none` is `continue 'outer`, and `some i` the cursor past the run.
pub free_run : ℕ → ℕ → Exec FreeMap (Option ℕ)
free_run zero i = pure (some i)
free_run (suc cnt) i =
    get i >>= λ used. elim used [ true ↦ pure none | false ↦ free_run cnt (i + 1) ]

-- The outer loop, over the candidates left. Each round starts from its own candidate: the cursor
-- that the inner loop moves is a copy of the loop variable.
pub scan : ℕ → ℕ → ℕ → Exec FreeMap ℕ
scan zero i cnt = raise OsError.disk_sector_alloc_fail
scan (suc rounds) i cnt = free_run cnt i >>= λ run. elim run [
  | none ↦ scan rounds (i + 1) cnt
  | some past ↦ set_range cnt (past - cnt) >>= λ _. pure (past - cnt)
]

pub alloc : ℕ → Exec FreeMap ℕ
unfolding scan free_run set_range get set_sector
alloc cnt m =
    if cnt == 0
    then (ok 0, m)
    else if leb m.size cnt
    then (Outcome.err OsError.disk_sector_alloc_fail, m)
    else scan (m.size - cnt) 0 cnt m

-- The check of `in_place_alloc`, which returns the error at the first used sector.
pub check_free : ℕ → ℕ → Exec FreeMap Unit
check_free zero i = pure tt
check_free (suc cnt) i = get i >>= λ used. elim used [
  | true ↦ raise OsError.disk_sector_alloc_fail
  | false ↦ check_free cnt (i + 1)
]

pub in_place_alloc : ℕ → ℕ → Exec FreeMap Unit
unfolding check_free set_range get set_sector
in_place_alloc start cnt =
    if cnt == 0
    then pure tt
    else if ltb (start + cnt) u32_mod
    then (check_free cnt start >>= λ _. set_range cnt start)
    else crash

-- The loop of `dealloc`, which stops at the first free sector.
pub dealloc_from : ℕ → ℕ → Exec FreeMap Unit
dealloc_from zero i = pure tt
dealloc_from (suc cnt) i = get i >>= λ used. elim used [
  | true ↦ (reset i >>= λ _. dealloc_from cnt (i + 1))
  | false ↦ pure tt
]

pub dealloc : ℕ → ℕ → Exec FreeMap Unit
unfolding dealloc_from get reset
dealloc sector cnt = if ltb (sector + cnt) u32_mod then dealloc_from cnt sector else crash
