-- ===== src/Disk/Inode/Writing.antt =====
-- `write_at` of inode.rs within the file replaces the bytes that the data covers, whichever way the
-- sectors go.
use tacos.Prelude.{
  ℕ, zero, suc, ◌+◌, ◌-◌, ◌/◌, ◌%◌, ◌≤◌, ◌<◌, ◌≡◌, refl, sym, ap, ◌∙◌, Bool, true, false, inl, inr,
  List, [], ◌++◌, length, take, drop, ltb, leb, ◌==◌, ◌&&◌, if◌then◌else◌, get_or, arith, drop-all,
  append-nil, length-take, length-drop, length-append, Bool-cases,
}
use tacos.Prelude.Outcome.{ok}
use tacos.Prelude.Run.{bind-ok, then-ok}
use tacos.Disk.Inode.{
  Inode, sector_size, chunk_size, write_sector, with_sector, is_direct, store, write_from,
}
use tacos.Disk.Inode.Resize.{write_at, usize_mod}
use tacos.Disk.Inode.Slices.{slice, get_or-patch, get_or-drop, slice-patch}
use tacos.Disk.Inode.Reading.{byte_at, content, IsSound, read_sector-inside}

-- What writing `n` bytes of `new` at `off` does to an inode.
pub record Patched (off n : ℕ) (new : List ℕ) (d after : Inode) : Type 0 where
  pub sound : IsSound after
  pub size : after.size ≡ d.size
  pub deny_count : after.deny_count ≡ d.deny_count
  pub bytes :
      (i : ℕ)
      → byte_at after i
        ≡ (if leb off i && ltb i (off + n) then get_or new (i - off) 0 else byte_at d i)

-- A sector with a part of it replaced.
abbrev patch : List ℕ → ℕ → ℕ → List ℕ → List ℕ
patch sector so chunk new = take so sector ++ (take chunk new ++ drop (so + chunk) sector)

abbrev patched : Inode → ℕ → ℕ → List ℕ → Inode
patched d off chunk new =
    let s = d.start + off / sector_size in
    with_sector s (patch (d.sectors s) (off % sector_size) chunk new) d

length-patch :
    (sector new : List ℕ) (so chunk : ℕ)
    → so + chunk ≤ length sector
    → chunk ≤ length new
    → length (patch sector so chunk new) ≡ length sector
length-patch sector new so chunk h le = omega (
  arith,
  length-append (take so sector) (take chunk new ++ drop (so + chunk) sector),
  length-append (take chunk new) (drop (so + chunk) sector),
  length-take so sector,
  length-take chunk new,
  length-drop (so + chunk) sector,
)

patched-Patched :
    (d : Inode) (off chunk : ℕ) (new : List ℕ)
    → IsSound d
    → off % sector_size + chunk ≤ sector_size
    → chunk ≤ length new
    → Patched off chunk new d (patched d off chunk new)
unfolding byte_at
patched-Patched d off chunk new v h le =
    let s = d.start + off / sector_size in
    let so = off % sector_size in
    record {
      sound = record {
        whole = λ t. ground (arith, v.whole t, v.whole s, length-patch (d.sectors s) new so chunk);
        inside = v.inside;
        fits = v.fits;
      };
      size = refl;
      deny_count = refl;
      bytes = λ i. elim (Bool-cases (s == d.start + i / sector_size)) [
        | inl here ↦
            let quotient : i / sector_size ≡ off / sector_size = ground arith in
            let old : byte_at d i ≡ get_or (d.sectors s) (i % sector_size) 0 =
              ap (λ q. get_or (d.sectors (d.start + q)) (i % sector_size) 0) quotient in
            let at_i =
              get_or-patch (d.sectors s) new so chunk (i % sector_size) (omega (arith, v.whole s))
                le in
            rw here (
              at_i ∙ elim (Bool-cases (leb off i)) [
                | inl later ↦
                    let shift : i % sector_size - so ≡ i - off = ground arith in
                    ground (arith, old, ap (λ j. get_or new j 0) shift)
                | inr earlier ↦ ground (arith, old)
              ])
        | inr elsewhere ↦
            let outside : (leb off i && ltb i (off + chunk)) ≡ false = ground arith in
            rw (elsewhere, outside) refl
      ];
    }

module _ (address : ℕ) (translates : ℕ → Bool) (maps : (a : ℕ) → translates a ≡ true) where
  store-patched :
      (done off chunk : ℕ) (new : List ℕ) (d : Inode)
      → IsSound d
      → off < d.size
      → off % sector_size + chunk ≤ sector_size
      → store address translates done off chunk new d ≡ (ok tt, patched d off chunk new)
  unfolding store write_sector
  store-patched done off chunk new d v h le =
      let s = d.start + off / sector_size in
      let so = off % sector_size in
      let there : ltb s d.capacity ≡ true = ground (arith, v.inside off h) in
      let reads = read_sector-inside d off v h in
      elim (Bool-cases (is_direct address translates done chunk)) [
        | inl direct ↦
            let aligned : so ≡ 0 = ground arith in
            let none_behind : drop (so + chunk) (d.sectors s) ≡ [] =
              drop-all (so + chunk) (d.sectors s) (ground (arith, v.whole s)) in
            let whole : patch (d.sectors s) so chunk new ≡ take chunk new =
              ap (λ l. take so (d.sectors s) ++ (take chunk new ++ l)) none_behind
              ∙ ap (λ i. take i (d.sectors s) ++ (take chunk new ++ [])) aligned
              ∙ append-nil (take chunk new) in
            rw (direct, maps (address + done), store, there)
              (ap (λ l. (ok tt, with_sector s l d)) (sym whole))
        | inr bounced ↦ rw (bounced, store) (bind-ok _ _ reads (rw there refl))
      ]

  write_from-Patched :
      (fuel done : ℕ) (new : List ℕ) (off : ℕ) (d : Inode)
      → IsSound d
      → length new ≤ fuel
      → off + length new ≤ d.size
      → (after : Inode) × (write_from address translates fuel done new off d
          ≡ (ok (done + length new), after))
        × Patched off (length new) new d after
  unfolding write_from
  write_from-Patched zero done new off d v le h =
      let empty : length new ≡ 0 = omega arith in
      let same : done + length new ≡ done = omega arith in
      (
        d,
        ap (λ n. (ok n, d)) (sym same),
        record { sound = v; size = refl; deny_count = refl; bytes = λ i. ground arith },
      )
  write_from-Patched (suc fuel) done new off d v le h =
      let chunk = chunk_size d.size off (length new) in
      elim (Bool-cases (chunk == 0)) [
        | inl stop ↦
            let empty : length new ≡ 0 = ground arith in
            let same : done + length new ≡ done = omega arith in
            (
              d,
              rw (stop, write_from) (ap (λ n. (ok n, d)) (sym same)),
              record { sound = v; size = refl; deny_count = refl; bytes = λ i. ground arith },
            )
        | inr go ↦
            let some_more : 0 < chunk = ground arith in
            let step = store-patched done off chunk new d v (omega arith) (omega arith) in
            let p = patched-Patched d off chunk new v (omega arith) (omega arith) in
            let left = length-drop chunk new in
            let (after, runs, q) =
              write_from-Patched fuel (done + chunk) (drop chunk new) (off + chunk)
                (patched d off chunk new) p.sound (omega (arith, left)) (omega (arith, left)) in
            let total : done + chunk + length (drop chunk new) ≡ done + length new =
              omega (arith, left) in
            (
              after,
              rw (go, write_from) (then-ok _ _ step (runs ∙ ap (λ n. (ok n, after)) total)),
              record {
                sound = q.sound;
                size = q.size;
                deny_count = q.deny_count;
                bytes = λ i. elim (Bool-cases (leb (off + chunk) i)) [
                  | inl later ↦
                      let shift : chunk + (i - (off + chunk)) ≡ i - off = ground arith in
                      let moved =
                        get_or-drop chunk new (i - (off + chunk))
                        ∙ ap (λ j. get_or new j 0) shift in
                      ground (arith, q.bytes i, p.bytes i, left, moved)
                  | inr earlier ↦ ground (arith, q.bytes i, p.bytes i, left)
                ];
              },
            )
      ]

  -- On a sound disk, where every buffer translates and the deny count is 0, `write_at` of
  -- data that fits in the file writes all of it, wherever the buffer lies: the file has the data in
  -- place of the bytes that it covers and is as before elsewhere, has the length that it had, and the
  -- disk stays sound.
  pub write_at-content :
      (new : List ℕ) (off : ℕ) (d : Inode)
      → IsSound d
      → d.deny_count ≡ 0
      → off + length new ≤ d.size
      → (after : Inode) × (write_at address translates new off d ≡ (ok (length new), after))
        × (content after ≡ take off (content d) ++ (new ++ drop (off + length new) (content d)))
        × IsSound after
        × (after.size ≡ d.size)
        × (after.deny_count ≡ 0)
  unfolding write_at
  write_at-content new off d v open_ h =
      let (after, runs, p) = write_from-Patched (length new) 0 new off d v (omega arith) h in
      let allowed : ltb 0 d.deny_count ≡ false = ground arith in
      let small : ltb (off + length new) usize_mod ≡ true = ground (arith, v.fits) in
      let inside : ltb d.size (off + length new) ≡ false = ground arith in
      let all_of_it : 0 + length new ≡ length new = omega arith in
      (
        after,
        rw (allowed, small, inside) (runs ∙ ap (λ n. (ok n, after)) all_of_it),
        ap (slice (byte_at after) 0) p.size
            ∙ slice-patch (byte_at d) (byte_at after) new off d.size h p.bytes,
        p.sound,
        p.size,
        p.deny_count ∙ open_,
      )
