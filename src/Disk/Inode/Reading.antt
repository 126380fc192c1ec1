-- ===== src/Disk/Inode/Reading.antt =====
-- `read_at` of inode.rs reads the bytes of the file, whichever way the sectors go.
use tacos.Prelude.{
  ℕ, zero, suc, ◌+◌, ◌-◌, ◌/◌, ◌%◌, ◌≤◌, ◌<◌, ◌≡◌, refl, sym, ap, ◌∙◌, Bool, true, inl, inr, List,
  ◌++◌, length, take, drop, min, ltb, ◌==◌, get_or, arith, take-all, Bool-cases,
}
use tacos.Prelude.Outcome.{ok}
use tacos.Prelude.Run.{bind-ok}
use tacos.Disk.FreeMap.{u32_mod}
use tacos.Disk.Inode.{
  Inode, sector_size, chunk_size, read_sector, is_direct, fetch, read_from, read_at,
}
use tacos.Disk.Inode.Slices.{
  slice, length-slice, slice-same, slice-append, take-slice, drop-slice, part-slice,
}

-- The byte at a position of the file.
unfoldable pub byte_at : Inode → ℕ → ℕ
byte_at d i = get_or (d.sectors (d.start + i / sector_size)) (i % sector_size) 0

-- The bytes of the file.
abbrev pub content : Inode → List ℕ
content d = slice (byte_at d) 0 d.size

-- Every sector holds 512 bytes, the device has the sectors of the file, and its length is a `u32`.
pub record IsSound (d : Inode) : Type 0 where
  pub whole : (s : ℕ) → length (d.sectors s) ≡ sector_size
  pub inside : (i : ℕ) → i < d.size → d.start + i / sector_size < d.capacity
  pub fits : d.size < u32_mod

-- The part of one sector that a round moves.
pub part-byte_at :
    (d : Inode) (off chunk : ℕ)
    → IsSound d
    → off % sector_size + chunk ≤ sector_size
    → take chunk (drop (off % sector_size) (d.sectors (d.start + off / sector_size)))
      ≡ slice (byte_at d) off chunk
unfolding byte_at
part-byte_at d off chunk v h =
    let sector = d.sectors (d.start + off / sector_size) in
    part-slice sector (off % sector_size) chunk
      (omega (arith, v.whole (d.start + off / sector_size)))
    ∙ slice-same (λ i. get_or sector i 0) (byte_at d) (off % sector_size) off chunk
        (λ k lt.
          let same_sector : (off + k) / sector_size ≡ off / sector_size = omega arith in
          let later : (off + k) % sector_size ≡ off % sector_size + k = omega arith in
          rw (same_sector, later) refl)

-- The sector of a byte of the file can be read.
pub read_sector-inside :
    (d : Inode) (off : ℕ)
    → IsSound d
    → off < d.size
    → read_sector (d.start + off / sector_size) d
      ≡ (ok (d.sectors (d.start + off / sector_size)), d)
unfolding read_sector
read_sector-inside d off v h =
    let there : ltb (d.start + off / sector_size) d.capacity ≡ true =
      ground (arith, v.inside off h) in
    rw there refl

module _ (address : ℕ) (translates : ℕ → Bool) (maps : (a : ℕ) → translates a ≡ true) where
  fetch-slice :
      (d : Inode) (done off chunk : ℕ)
      → IsSound d
      → off < d.size
      → off % sector_size + chunk ≤ sector_size
      → fetch address translates done off chunk d ≡ (ok (slice (byte_at d) off chunk), d)
  unfolding fetch
  fetch-slice d done off chunk v h le =
      let reads = read_sector-inside d off v h in
      let part = part-byte_at d off chunk v le in
      elim (Bool-cases (is_direct address translates done chunk)) [
        | inl direct ↦
            let sector = d.sectors (d.start + off / sector_size) in
            let aligned : off % sector_size ≡ 0 = ground arith in
            let full : chunk ≡ sector_size = ground arith in
            let all_of_it : take chunk (drop (off % sector_size) sector) ≡ sector =
              ap (λ i. take chunk (drop i sector)) aligned
              ∙ take-all chunk sector (omega (arith, v.whole (d.start + off / sector_size))) in
            rw (direct, maps (address + done), fetch)
              (reads ∙ ap (λ l. (ok l, d)) (sym all_of_it ∙ part))
        | inr bounced ↦ rw (bounced, fetch) (bind-ok _ _ reads (ap (λ l. (ok l, d)) part))
      ]

  read_from-slice :
      (fuel done left off : ℕ) (d : Inode)
      → IsSound d
      → left ≤ fuel
      → read_from address translates fuel done left off d
        ≡ (ok (slice (byte_at d) off (min (d.size - off) left)), d)
  unfolding read_from slice
  read_from-slice zero done left off d v le =
      let none_left : min (d.size - off) left ≡ 0 = omega arith in rw none_left refl
  read_from-slice (suc fuel) done left off d v le =
      let chunk = chunk_size d.size off left in
      elim (Bool-cases (chunk == 0)) [
        | inl stop ↦
            let none_left : min (d.size - off) left ≡ 0 = ground arith in
            rw (stop, none_left, read_from) refl
        | inr go ↦
            let rest = min (d.size - (off + chunk)) (left - chunk) in
            let total : chunk + rest ≡ min (d.size - off) left = omega arith in
            let step = fetch-slice d done off chunk v (ground arith) (omega arith) in
            let ih =
              read_from-slice fuel (done + chunk) (left - chunk) (off + chunk) d v (ground arith) in
            rw (go, read_from)
              (bind-ok _ _ step (
                bind-ok _ _ ih (
                  ap (λ l. (ok l, d))
                    (slice-append (byte_at d) off chunk rest ∙ ap (slice (byte_at d) off) total))))
      ]

  -- On a sound disk, where every buffer translates, `read_at` reads from any offset the bytes of the
  -- file from there on, as many as there are and the buffer takes, into the front of the buffer,
  -- wherever the buffer lies. The disk and the inode stay as they are.
  pub read_at-content :
      (buf : List ℕ) (off : ℕ) (d : Inode)
      → IsSound d
      → let n = min (d.size - off) (length buf) in
        read_at address translates buf off d
        ≡ (ok (n, take n (drop off (content d)) ++ drop n buf), d)
  unfolding read_at
  read_at-content buf off d v =
      let n = min (d.size - off) (length buf) in
      let got = slice (byte_at d) off n in
      let from_file : take n (drop off (content d)) ≡ got =
        ap (take n) (drop-slice (byte_at d) 0 off d.size)
        ∙ take-slice (byte_at d) (0 + off) n (d.size - off) (omega arith)
        ∙ ap (λ i. slice (byte_at d) i n) (omega arith) in
      bind-ok _ _ (read_from-slice (length buf) 0 (length buf) off d v (omega arith)) (
        ap (λ m. (ok (m, got ++ drop m buf), d)) (length-slice (byte_at d) off n)
        ∙ ap (λ l. (ok (n, l ++ drop n buf), d)) (sym from_file))
