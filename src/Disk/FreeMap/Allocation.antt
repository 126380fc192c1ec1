-- ===== src/Disk/FreeMap/Allocation.antt =====
-- `alloc`, `in_place_alloc` and `dealloc` of free_map.rs on a well-formed map.
use tacos.Prelude.{
  ap, sym, ◌∙◌, ℕ, zero, suc, ◌+◌, ◌-◌, ◌≤◌, ◌<◌, ◌≡◌, refl, true, false, ◌⊎◌, inl, inr, ltb, leb,
  ◌==◌, arith, Bool-cases,
}
use tacos.Prelude.Outcome.{Outcome, ok, err, panic, OsError}
use tacos.Disk.FreeMap.{FreeMap, u32_mod, get, scan, alloc, check_free, in_place_alloc, dealloc}
use tacos.Disk.FreeMap.Marks.{IsValid, used, get-eq-used}
use tacos.Disk.FreeMap.Ranges.{
  AllFree, SomeUsed, Filled, Filled-zero, set_range-Filled, free_run_cases, check_free_cases,
  used_prefix, dealloc_from-Filled,
}

-- `alloc` has taken the lowest free run among the candidates from `low` on.
pub record Allocated (low cnt : ℕ) (m after : FreeMap) (start : ℕ) : Type 0 where
  pub above : low ≤ start
  pub inside : start + cnt < m.size
  pub was_free : AllFree m start cnt
  pub lowest : (k : ℕ) → low ≤ k → k < start → SomeUsed m k cnt
  pub filled : Filled true start cnt m after

sub-add : (i cnt : ℕ) → i + cnt - cnt ≡ i
sub-add i cnt = omega arith

scan_cases :
    (rounds i cnt : ℕ) (m : FreeMap)
    → IsValid m
    → rounds + i + cnt ≡ m.size
    → ((start : ℕ) × (after : FreeMap) × (scan rounds i cnt m ≡ (ok start, after))
        × Allocated i cnt m after start)
      ⊎ ((scan rounds i cnt m ≡ (err OsError.disk_sector_alloc_fail, m))
          × ((k : ℕ) → i ≤ k → k + cnt < m.size → SomeUsed m k cnt))
unfolding scan
scan_cases zero i cnt m v h = inr (refl, λ k a b. absurd (omega arith))
scan_cases (suc rounds) i cnt m v h = elim (free_run_cases cnt i m v (omega arith)) [
  | inl (runs, all) ↦
      let (after, fills, f) = set_range-Filled cnt i m v (omega arith) in
      inl (
        i,
        after,
        rw (runs, sub-add i cnt, fills) refl,
        record {
          above = omega arith;
          inside = omega arith;
          was_free = all;
          lowest = λ k a b. absurd (omega arith);
          filled = f;
        },
      )
  | inr (runs, hit) ↦ elim (scan_cases rounds (i + 1) cnt m v (omega arith)) [
    | inl (start, after, found, a) ↦ inl (
      start,
      after,
      rw runs found,
      record {
        above = omega (arith, a.above);
        inside = a.inside;
        was_free = a.was_free;
        lowest = λ k p q. elim (Bool-cases (i == k)) [
          | inl e ↦ let e' : i ≡ k = ground arith in rw e' at hit
          | inr n ↦ a.lowest k (ground arith) q
        ];
        filled = a.filled;
      },
    )
    | inr (fails, full) ↦ inr (
      rw runs fails,
      λ k p q. elim (Bool-cases (i == k)) [
        | inl e ↦ let e' : i ≡ k = ground arith in rw e' at hit
        | inr n ↦ full k (ground arith) q
      ],
    )
  ]
]

abbrev pub AllocOutcome : ℕ → FreeMap → Type 0
AllocOutcome cnt m =
    ((start : ℕ) × (after : FreeMap) × (alloc cnt m ≡ (ok start, after))
      × Allocated 0 cnt m after start)
    ⊎ ((alloc cnt m ≡ (err OsError.disk_sector_alloc_fail, m))
        × ((k : ℕ) → 0 ≤ k → k + cnt < m.size → SomeUsed m k cnt))

-- On a well-formed map, `alloc` of a positive count never panics. It takes the lowest free run that
-- ends before the last sector, marks it and nothing else, and keeps the map well formed; or no such
-- run is free, and it returns the allocation error and changes nothing.
pub alloc_lem : (cnt : ℕ) (m : FreeMap) → IsValid m → 0 < cnt → AllocOutcome cnt m
unfolding alloc
alloc_lem cnt m v pos = elim (Bool-cases (leb m.size cnt)) [
  | inl big ↦ inr (ground arith, λ k a b. absurd (ground arith))
  | inr fits ↦
      let nonzero : (cnt == 0) ≡ false = ground arith in
      rw (nonzero, fits) (scan_cases (m.size - cnt) 0 cnt m v (ground arith))
]

abbrev pub InPlaceOutcome : ℕ → ℕ → FreeMap → Type 0
InPlaceOutcome start cnt m =
    ((after : FreeMap) × (in_place_alloc start cnt m ≡ (ok tt, after))
      × AllFree m start cnt
      × Filled true start cnt m after)
    ⊎ ((in_place_alloc start cnt m ≡ (err OsError.disk_sector_alloc_fail, m))
        × SomeUsed m start cnt)

-- Within the disk, `in_place_alloc` takes exactly the run that it is given if every sector of it is
-- free, and otherwise returns the allocation error and changes nothing.
pub in_place_alloc_lem :
    (start cnt : ℕ) (m : FreeMap) → IsValid m → start + cnt ≤ m.size → InPlaceOutcome start cnt m
unfolding in_place_alloc
in_place_alloc_lem start zero m v h =
    inl (m, refl, λ j a b. absurd (omega arith), Filled-zero true start m v)
in_place_alloc_lem start (suc cnt) m v h =
    let small : ltb (start + suc cnt) u32_mod ≡ true = ground (arith, v.fits) in
    let nonzero : (suc cnt == 0) ≡ false = ground arith in
    elim (check_free_cases (suc cnt) start m v h) [
      | inl (runs, all) ↦
          let (after, fills, f) = set_range-Filled (suc cnt) start m v h in
          inl (after, rw (nonzero, small, runs) fills, all, f)
      | inr (runs, hit) ↦ inr (rw (nonzero, small, runs) refl, hit)
    ]

get-beyond : (m : FreeMap) (i : ℕ) → m.size ≤ i → get i m ≡ (panic, m)
unfolding get
get-beyond m i h = ground arith

check_free-beyond :
    (cnt i : ℕ) (m : FreeMap)
    → IsValid m
    → i ≤ m.size
    → m.size < i + cnt
    → AllFree m i (m.size - i)
    → check_free cnt i m ≡ (panic, m)
unfolding check_free
check_free-beyond zero i m v h past all = absurd (omega arith)
check_free-beyond (suc cnt) i m v h past all = elim (Bool-cases (ltb i m.size)) [
  | inl here ↦
      let lt : i < m.size = ground arith in
      rw (get-eq-used m v i lt, all i (omega arith) (omega arith))
        (check_free-beyond cnt (i + 1) m v (omega arith) (omega arith)
          (λ j a b. all j (omega arith) (omega arith)))
  | inr out ↦ rw (get-beyond m i (ground arith)) refl
]

-- A run that begins free and goes past the end of the disk makes `in_place_alloc` panic: it reads
-- the bit of the first sector that does not exist instead of returning the allocation error.
in_place_alloc-past_end :
    (start cnt : ℕ) (m : FreeMap)
    → IsValid m
    → start ≤ m.size
    → m.size < start + cnt
    → AllFree m start (m.size - start)
    → in_place_alloc start cnt m ≡ (panic, m)
unfolding in_place_alloc
in_place_alloc-past_end start cnt m v h past all = elim (Bool-cases (ltb (start + cnt) u32_mod)) [
  | inl small ↦
      let nonzero : (cnt == 0) ≡ false = ground arith in
      rw (nonzero, small, check_free-beyond cnt start m v h past all) refl
  | inr large ↦ let nonzero : (cnt == 0) ≡ false = ground arith in rw (nonzero, large) refl
]

-- Within the disk, `dealloc` frees exactly the used sectors from `sector` on, up to the first free
-- one and `cnt` at most.
pub dealloc_lem :
    (sector cnt : ℕ) (m : FreeMap)
    → IsValid m
    → sector + cnt ≤ m.size
    → (after : FreeMap) × (dealloc sector cnt m ≡ (ok tt, after))
      × Filled false sector (used_prefix cnt sector m) m after
unfolding dealloc
dealloc_lem sector cnt m v h =
    let small : ltb (sector + cnt) u32_mod ≡ true = ground (arith, v.fits) in
    rw small (dealloc_from-Filled cnt sector m v h)

used_prefix-all :
    (cnt i : ℕ) (m : FreeMap)
    → ((j : ℕ) → i ≤ j → j < i + cnt → used m j ≡ true)
    → used_prefix cnt i m ≡ cnt
unfolding used_prefix
used_prefix-all zero i m h = refl
used_prefix-all (suc cnt) i m h =
    rw (h i (omega arith) (omega arith), used_prefix)
      (ground (arith, used_prefix-all cnt (i + 1) m (λ j a b. h j (omega arith) (omega arith))))

-- What `alloc` returned, it has allocated.
alloc-Allocated :
    (cnt start : ℕ) (m after : FreeMap)
    → IsValid m
    → 0 < cnt
    → alloc cnt m ≡ (ok start, after)
    → Allocated 0 cnt m after start
alloc-Allocated cnt start m after v pos h = elim (alloc_lem cnt m v pos) [
  | inl (s, a, e, al) ↦
      let same_start : s ≡ start = cc (ap (λ (r : Outcome ℕ × FreeMap). r.0) (sym e ∙ h)) in
      let same_map : a ≡ after = ap (λ (r : Outcome ℕ × FreeMap). r.1) (sym e ∙ h) in
      rw (← same_start, ← same_map) al
  | inr (e, full) ↦ absurd (cc (ap (λ (r : Outcome ℕ × FreeMap). r.0) (sym e ∙ h)))
]

-- On a well-formed map, `dealloc` of the sectors that `alloc` returned succeeds and frees them
-- again: every sector is as it was before.
pub dealloc-alloc :
    (cnt start : ℕ) (m after : FreeMap)
    → IsValid m
    → 0 < cnt
    → alloc cnt m ≡ (ok start, after)
    → (back : FreeMap) × (dealloc start cnt after ≡ (ok tt, back))
      × ((j : ℕ) → used back j ≡ used m j)
dealloc-alloc cnt start m after v pos h =
    let a = alloc-Allocated cnt start m after v pos h in
    let (back, runs, f) =
      dealloc_lem start cnt after a.filled.valid (omega (arith, a.inside, a.filled.same_size)) in
    let all : used_prefix cnt start after ≡ cnt =
      used_prefix-all cnt start after (λ j p q. ground (arith, a.filled.at j)) in
    (back, runs, λ j. ground (arith, f.at j, a.filled.at j, all, a.was_free j))
