-- ===== src/Disk/Inode/Contract.antt =====
-- `impl Vnode for Inode` of inode.rs, and that it keeps the contract of a vnode.
use tacos.Prelude.{
  ℕ, ◌+◌, ◌-◌, ◌≡◌, ap, ◌∙◌, Bool, true, inl, ◌++◌, length, take, drop, min, ltb, if◌then◌else◌,
  ◌==◌, arith,
}
use tacos.Prelude.Outcome.{ok, panic, Exec}
use tacos.Disk.FreeMap.{u32_mod}
use tacos.Disk.Inode.{Inode, read_at}
use tacos.Disk.Inode.Resize.{resize_inner, write_at}
use tacos.Disk.Inode.Slices.{length-slice}
use tacos.Disk.Inode.Reading.{byte_at, content, IsSound, read_at-content}
use tacos.Disk.Inode.Writing.{write_at-content}
use tacos.Files.Vnode.{Vnode, IsVnode}

-- A `u32` count, which panics out of range.
pub deny_write : Exec Inode Unit
deny_write d =
    if ltb (d.deny_count + 1) u32_mod
    then (ok tt, record d { deny_count = d.deny_count + 1 })
    else (panic, d)

pub allow_write : Exec Inode Unit
allow_write d =
    if d.deny_count == 0 then (panic, d) else (ok tt, record d { deny_count = d.deny_count - 1 })

abbrev pub IsWritable : Inode → Type 0
IsWritable d = IsSound d × (d.deny_count ≡ 0)

module _ (address : ℕ) (translates : ℕ → Bool) where
  unfoldable pub inode : Vnode Inode
  unfolding deny_write allow_write
  inode = record {
    read_at = read_at address translates;
    write_at = write_at address translates;
    deny_write = deny_write;
    allow_write = allow_write;
    inum = λ d. d.sector;
    len = λ d. d.size;
    resize = resize_inner;
  }

  module _ (maps : (a : ℕ) → translates a ≡ true) where
    -- Where every buffer translates, an inode keeps the contract of a vnode on the bytes of its
    -- sectors: it can be read on a sound disk, and written there while its deny count is 0.
    pub inode-IsVnode : IsVnode inode content IsSound IsWritable
    unfolding inode
    inode-IsVnode = record {
      readable = λ d w. w.0;
      len_lem = λ d. omega (arith, length-slice (byte_at d) 0 d.size);
      read_within = λ d buf off v h.
          let n = length-slice (byte_at d) 0 d.size in
          read_at-content address translates maps buf off d v
          ∙ ap
              (λ m. (
                ok (
                  min (m - off) (length buf),
                  take (min (m - off) (length buf)) (drop off (content d))
                      ++ drop (min (m - off) (length buf)) buf,
                ),
                d,
              ))
              (omega (arith, n));
      read_past = λ d buf off v h.
          let none_left : min (d.size - off) (length buf) ≡ 0 =
            omega (arith, length-slice (byte_at d) 0 d.size) in
          inl (
            read_at-content address translates maps buf off d v
            ∙ ap (λ m. (ok (m, take m (drop off (content d)) ++ drop m buf), d)) none_left);
      write_within = λ d new off w pos h.
          let (after, runs, bytes, sound, size, still) =
            write_at-content address translates maps new off d w.0 w.1
              (omega (arith, length-slice (byte_at d) 0 d.size)) in
          (after, runs, bytes, (sound, still));
    }
