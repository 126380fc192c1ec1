-- ===== src/Disk/FreeMap/Ranges.antt =====
-- Runs of sectors: the loops of free_map.rs on a well-formed map.
use tacos.Prelude.{
  ℕ, zero, suc, ◌+◌, ◌≤◌, ◌<◌, ◌≡◌, refl, Bool, true, false, none, some, ◌⊎◌, inl, inr, ◌&&◌, ◌∙◌,
  ltb, leb, ◌==◌, if◌then◌else◌, arith, Bool-cases,
}
use tacos.Prelude.Outcome.{ok, err, OsError}
use tacos.Disk.FreeMap.{FreeMap, set_range, free_run, check_free, dealloc_from}
use tacos.Disk.FreeMap.Marks.{
  IsValid, used, marked, cleared, get-eq-used, set-eq-marked, reset-eq-cleared, marked-IsValid,
  cleared-IsValid, used-marked, used-cleared, size-marked, size-cleared,
}

-- The sectors of a run are free.
abbrev pub AllFree : FreeMap → ℕ → ℕ → Type 0
AllFree m i cnt = (j : ℕ) → i ≤ j → j < i + cnt → used m j ≡ false

-- Some sector of a run is used.
abbrev pub SomeUsed : FreeMap → ℕ → ℕ → Type 0
SomeUsed m i cnt = (j : ℕ) × (i ≤ j) × (j < i + cnt) × (used m j ≡ true)

-- `after` is a well-formed map of the same disk in which exactly the run has become `value`.
pub record Filled (value : Bool) (i cnt : ℕ) (m after : FreeMap) : Type 0 where
  pub valid : IsValid after
  pub same_size : after.size ≡ m.size
  pub at : (j : ℕ) → used after j ≡ (if leb i j && ltb j (i + cnt) then value else used m j)

pub Filled-zero : (value : Bool) (i : ℕ) (m : FreeMap) → IsValid m → Filled value i 0 m m
Filled-zero value i m v = record { valid = v; same_size = refl; at = λ j. ground arith }

marked-Filled :
    (cnt i : ℕ) (m after : FreeMap)
    → IsValid m
    → i < m.size
    → Filled true (i + 1) cnt (marked m i) after
    → Filled true i (suc cnt) m after
marked-Filled cnt i m after v h f = record {
  valid = f.valid;
  same_size = f.same_size ∙ size-marked m i;
  at = λ j. ground (arith, f.at j, used-marked m v i h j);
}

cleared-Filled :
    (cnt i : ℕ) (m after : FreeMap)
    → IsValid m
    → i < m.size
    → Filled false (i + 1) cnt (cleared m i) after
    → Filled false i (suc cnt) m after
cleared-Filled cnt i m after v h f = record {
  valid = f.valid;
  same_size = f.same_size ∙ size-cleared m i;
  at = λ j. ground (arith, f.at j, used-cleared m v i h j);
}

-- `set_range` marks its whole run.
pub set_range-Filled :
    (cnt i : ℕ) (m : FreeMap)
    → IsValid m
    → i + cnt ≤ m.size
    → (after : FreeMap) × (set_range cnt i m ≡ (ok tt, after)) × Filled true i cnt m after
unfolding set_range
set_range-Filled zero i m v h = (m, refl, Filled-zero true i m v)
set_range-Filled (suc cnt) i m v h =
    let here : i < m.size = omega arith in
    let (after, runs, f) =
      set_range-Filled cnt (i + 1) (marked m i) (marked-IsValid m v i here)
        (omega (arith, size-marked m i)) in
    (after, rw (set-eq-marked m v i here) runs, marked-Filled cnt i m after v here f)

-- The inner loop of `alloc` reads only, and tells whether its run is free.
pub free_run_cases :
    (cnt i : ℕ) (m : FreeMap)
    → IsValid m
    → i + cnt ≤ m.size
    → ((free_run cnt i m ≡ (ok (some (i + cnt)), m)) × AllFree m i cnt)
      ⊎ ((free_run cnt i m ≡ (ok none, m)) × SomeUsed m i cnt)
unfolding free_run
free_run_cases zero i m v h = inl (ground arith, λ j a b. absurd (omega arith))
free_run_cases (suc cnt) i m v h =
    let here : i < m.size = omega arith in
    elim (Bool-cases (used m i)) [
      | inl hit ↦ inr (rw (get-eq-used m v i here, hit) refl, (i, omega arith, omega arith, hit))
      | inr free ↦ elim (free_run_cases cnt (i + 1) m v (omega arith)) [
        | inl (runs, all) ↦ inl (
          rw (get-eq-used m v i here, free) (ground (arith, runs)),
          λ j a b. elim (Bool-cases (i == j)) [
            | inl e ↦ ground arith
            | inr n ↦ all j (ground arith) (omega arith)
          ],
        )
        | inr (runs, (j, a, b, hit)) ↦
            inr (rw (get-eq-used m v i here, free) runs, (j, omega arith, omega arith, hit))
      ]
    ]

-- So does the check of `in_place_alloc`.
pub check_free_cases :
    (cnt i : ℕ) (m : FreeMap)
    → IsValid m
    → i + cnt ≤ m.size
    → ((check_free cnt i m ≡ (ok tt, m)) × AllFree m i cnt)
      ⊎ ((check_free cnt i m ≡ (err OsError.disk_sector_alloc_fail, m)) × SomeUsed m i cnt)
unfolding check_free
check_free_cases zero i m v h = inl (refl, λ j a b. absurd (omega arith))
check_free_cases (suc cnt) i m v h =
    let here : i < m.size = omega arith in
    elim (Bool-cases (used m i)) [
      | inl hit ↦ inr (rw (get-eq-used m v i here, hit) refl, (i, omega arith, omega arith, hit))
      | inr free ↦ elim (check_free_cases cnt (i + 1) m v (omega arith)) [
        | inl (runs, all) ↦ inl (
          rw (get-eq-used m v i here, free) runs,
          λ j a b. elim (Bool-cases (i == j)) [
            | inl e ↦ ground arith
            | inr n ↦ all j (ground arith) (omega arith)
          ],
        )
        | inr (runs, (j, a, b, hit)) ↦
            inr (rw (get-eq-used m v i here, free) runs, (j, omega arith, omega arith, hit))
      ]
    ]

-- How many sectors `dealloc` frees: the used ones from `i` on, up to the first free one.
unfoldable pub used_prefix : ℕ → ℕ → FreeMap → ℕ
used_prefix zero i m = 0
used_prefix (suc cnt) i m = elim (used m i) [ true ↦ suc (used_prefix cnt (i + 1) m) | false ↦ 0 ]

-- `used_prefix` reads only the sectors from `i` on.
used_prefix-cleared :
    (cnt k i : ℕ) (m : FreeMap)
    → IsValid m
    → (h : i < m.size) → i < k
    → used_prefix cnt k (cleared m i) ≡ used_prefix cnt k m
unfolding used_prefix
used_prefix-cleared zero k i m v h lt = refl
used_prefix-cleared (suc cnt) k i m v h lt =
    ground (arith, used-cleared m v i h k, used_prefix-cleared cnt (k + 1) i m v h)

pub dealloc_from-Filled :
    (cnt i : ℕ) (m : FreeMap)
    → IsValid m
    → i + cnt ≤ m.size
    → (after : FreeMap) × (dealloc_from cnt i m ≡ (ok tt, after))
      × Filled false i (used_prefix cnt i m) m after
unfolding dealloc_from used_prefix
dealloc_from-Filled zero i m v h = (m, refl, Filled-zero false i m v)
dealloc_from-Filled (suc cnt) i m v h =
    let here : i < m.size = omega arith in
    elim (Bool-cases (used m i)) [
      | inl hit ↦
          let (after, runs, f) =
            dealloc_from-Filled cnt (i + 1) (cleared m i) (cleared-IsValid m v i here)
              (omega (arith, size-cleared m i)) in
          (
            after,
            rw (get-eq-used m v i here, hit, reset-eq-cleared m v i here) runs,
            rw (hit, used_prefix)
                (cleared-Filled (used_prefix cnt (i + 1) m) i m after v here
                  (rw (used_prefix-cleared cnt (i + 1) i m v here (omega arith)) at f)),
          )
      | inr free ↦ (
        m,
        rw (get-eq-used m v i here, free) refl,
        rw (free, used_prefix) (Filled-zero false i m v),
      )
    ]
