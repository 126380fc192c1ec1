-- ===== src/Disk/Inode/Shrink.antt =====
-- Shrinking a file in inode.rs is lazy: the length is written to the inode's sector, and the sectors
-- stay allocated.
use tacos.Prelude.{
  ap, ℕ, ◌+◌, ◌-◌, ◌/◌, ◌%◌, ◌<◌, ◌≡◌, ◌≢◌, refl, sym, ◌∙◌, true, false, length, take, ltb, ◌==◌,
  arith,
}
use tacos.Prelude.Outcome.{ok}
use tacos.Prelude.Run.{bind-ok, then-ok}
use tacos.Disk.FreeMap.{u32_mod}
use tacos.Disk.Inode.{drop, Inode, sector_size, write_sector, with_sector}
use tacos.Disk.Inode.Resize.{resize_inner, flush_len, disk_inode}
use tacos.Disk.Inode.Opening.{le_value, fresh, open_inode, open_inode-disk_inode, word}
use tacos.Disk.Inode.Slices.{slice-same, take-slice}
use tacos.Disk.Inode.Reading.{byte_at, content, IsSound}

-- The inode has a sector of its own on the device, which is none of its file.
pub record IsOwn (d : Inode) : Type 0 where
  pub inside : d.sector < d.capacity
  pub apart : (i : ℕ) → i < d.size → d.sector ≢ d.start + i / sector_size

-- What shrinking a file to `size` leaves.
pub record Shrunk (size : ℕ) (d after : Inode) : Type 0 where
  pub content_lem : content after ≡ take size (content d)
  pub allocated : after.size + after.shrink_len ≡ d.size + d.shrink_len
  pub new_length : le_value (take 4 (drop 4 (after.sectors d.sector))) ≡ size
  pub reopens :
      d.start < u32_mod → open_inode d.sector after ≡ (ok tt, fresh d.sector d.start size after)
  pub free_map : after.free_map ≡ d.free_map
  pub sound : IsSound after
  pub own : IsOwn after

length-disk_inode : (d : Inode) → length (disk_inode d) ≡ sector_size
length-disk_inode d = refl

-- From a sound inode, whose sector is its own and none of its file's, and whose size and what it has
-- been shrunk by are below 2 ^ 32 together, `resize_inner` to a smaller size succeeds: the file keeps
-- its first bytes, its sectors stay allocated, and what has been cut off is counted in `shrink_len`.
-- The free map stays as it is; the second word of the inode's sector, its lowest byte first, is the new
-- length, and opening that sector again brings back the start, where it is below 2 ^ 32, and the new
-- length.
pub resize_inner-Shrunk :
    (size : ℕ) (d : Inode)
    → IsSound d
    → IsOwn d
    → size < d.size
    → d.size + d.shrink_len < u32_mod
    → (after : Inode) × (resize_inner size d ≡ (ok tt, after)) × Shrunk size d after
unfolding resize_inner flush_len write_sector byte_at
resize_inner-Shrunk size d v o h fits =
    let newlen : size % u32_mod ≡ size = omega arith in
    let differs : (size == d.size) ≡ false = ground arith in
    let smaller : ltb size d.size ≡ true = ground arith in
    let small : ltb (d.shrink_len + (d.size - size)) u32_mod ≡ true = ground arith in
    let there : ltb d.sector d.capacity ≡ true = ground (arith, o.inside) in
    let cut : Inode = record d { size = size; shrink_len = d.shrink_len + (d.size - size) } in
    let after : Inode = with_sector d.sector (disk_inode cut) cut in
    let written : after.sectors d.sector ≡ disk_inode cut =
      let self : (d.sector == d.sector) ≡ true = ground arith in rw self refl in
    (
      after,
      rw (newlen, differs, smaller, small) (bind-ok _ _ refl (then-ok _ _ refl (rw there refl))),
      record {
        content_lem =
            slice-same (byte_at after) (byte_at d) 0 0 size (λ k lt.
              let kept : (d.sector == d.start + (0 + k) / sector_size) ≡ false =
                ground (arith, o.apart (0 + k)) in
              rw kept refl)
            ∙ sym (take-slice (byte_at d) 0 size d.size (omega arith));
        allocated = omega arith;
        new_length =
            ap (λ l. le_value (take 4 (drop 4 l))) written ∙ word size (omega (arith, v.fits));
        reopens = λ st.
            open_inode-disk_inode d.sector cut after o.inside written st (omega (arith, v.fits));
        free_map = refl;
        sound = record {
          whole = λ s. ground (arith, v.whole s, length-disk_inode cut);
          inside = λ i lt. v.inside i (omega arith);
          fits = omega arith;
        };
        own = record { inside = o.inside; apart = λ i lt. o.apart i (omega arith) };
      },
    )
