-- ===== src/Disk/Inode/Resize.antt =====
-- `resize_inner` and `write_at` of inode.rs. Lengths and sectors are `u32`: casts wrap around, and
-- sums that do not fit panic.
use tacos.Prelude.{
  ℕ, zero, suc, ◌+◌, ◌-◌, ◌/◌, ◌%◌, ◌^◌, Bool, true, false, List, [], ◌∷◌, ◌++◌, length, replicate,
  ltb, leb, ◌==◌, if◌then◌else◌,
}
use tacos.Prelude.Outcome.{Outcome, ok, err, panic, OsError, Exec, pure, crash}
use tacos.Prelude.Run.{◌>>=◌, ◌>>◌}
use tacos.Disk.FreeMap.{FreeMap, u32_mod, alloc, in_place_alloc, dealloc}
use tacos.Disk.Inode.{Inode, sector_size, read_sector, write_sector, write_from}

abbrev pub usize_mod : ℕ
usize_mod = 2 ^ 64

-- `bytes_to_sectors` of src/fs/disk.rs
abbrev pub bytes_to_sectors : ℕ → ℕ
bytes_to_sectors bytes = ((bytes + sector_size - 1) / sector_size) % u32_mod

abbrev pub inode_magic : ℕ
inode_magic = 0x494e4f44

-- The `n` low bytes of a number, the lowest first.
abbrev pub le_bytes : ℕ → ℕ → List ℕ
le_bytes zero v = []
le_bytes (suc n) v = v % 256 ∷ le_bytes n (v / 256)

-- The bytes of `DiskInode`.
abbrev pub disk_inode : Inode → List ℕ
disk_inode d =
    le_bytes 4 d.start ++ (le_bytes 4 d.size ++ (le_bytes 4 inode_magic ++ replicate 500 0))

-- A call of the free map.
abbrev pub on_map : {A : Type 0} → Exec FreeMap A → Exec Inode A
on_map m d = let (r, map) = m d.free_map in (r, record d { free_map = map })

-- A `u32` sum.
abbrev pub sum_u32 : ℕ → ℕ → Exec Inode ℕ
sum_u32 a b = if ltb (a + b) u32_mod then pure (a + b) else crash

-- `flush_len`
unfoldable pub flush_len : ℕ → Exec Inode Unit
flush_len newlen d =
    let resized : Inode = record d { size = newlen } in
    write_sector d.sector (disk_inode resized) resized

abbrev pub with_shrink : ℕ → Exec Inode Unit
with_shrink n d = (ok tt, record d { shrink_len = n })

abbrev pub with_start : ℕ → Exec Inode Unit
with_start s d = (ok tt, record d { start = s })

-- The loop that copies the sectors of the file, by the number left, from the `i`-th on.
pub copy_sectors : ℕ → ℕ → ℕ → ℕ → Exec Inode Unit
copy_sectors zero i old_start new_start d = (ok tt, d)
copy_sectors (suc n) i old_start new_start d =
    (sum_u32 old_start i >>= λ source. read_sector source >>= λ bounce.
    sum_u32 new_start i >>= λ target.
    write_sector target bounce >> copy_sectors n (i + 1) old_start new_start)
      d

-- The part of `resize_inner` after `in_place_alloc` has failed.
pub move_file : ℕ → ℕ → Exec Inode Unit
unfolding copy_sectors flush_len
move_file newlen oldlen d =
    (on_map (alloc (bytes_to_sectors newlen)) >>= λ new_start.
    copy_sectors (bytes_to_sectors oldlen) 0 d.start new_start
    >> on_map (dealloc d.start (bytes_to_sectors oldlen))
    >> with_shrink 0
    >> with_start new_start
    >> flush_len newlen)
      d

-- The part of `resize_inner` that needs more sectors: `is_ok` of the attempt in place forgets its
-- error.
pub extend : ℕ → ℕ → Exec Inode Unit
unfolding move_file flush_len
extend newlen oldlen d =
    (sum_u32 d.start (bytes_to_sectors oldlen) >>= λ start d.
    let (r, map) =
      in_place_alloc start (bytes_to_sectors newlen - bytes_to_sectors oldlen) d.free_map in
    let tried : Inode = record d { free_map = map } in
    elim r [
      | ok _ ↦ (with_shrink 0 >> flush_len newlen) tried
      | err e ↦ move_file newlen oldlen tried
      | panic ↦ (panic, tried)
    ])
      d

unfoldable pub resize_inner : ℕ → Exec Inode Unit
unfolding extend flush_len
resize_inner size d =
    let newlen = size % u32_mod in
    if newlen == d.size
    then (ok tt, d)
    else if ltb newlen d.size
    then ((sum_u32 d.shrink_len (d.size - newlen) >>= λ shrink.
          with_shrink shrink >> flush_len newlen)
        d)
    else ((sum_u32 d.size d.shrink_len >>= λ oldlen. elim (leb newlen oldlen) [
      | true ↦ with_shrink (oldlen - newlen) >> flush_len newlen
      | false ↦ extend newlen oldlen
    ])
        d)

module _ (address : ℕ) (translates : ℕ → Bool) where
  unfoldable pub write_at : List ℕ → ℕ → Exec Inode ℕ
  unfolding resize_inner
  write_at new off d =
      if ltb 0 d.deny_count
      then (Outcome.err OsError.invalid_file_mode, d)
      else if ltb (off + length new) usize_mod
      then (if ltb d.size (off + length new)
          then ((resize_inner (off + length new)
                >> write_from address translates (length new) 0 new off)
              d)
          else write_from address translates (length new) 0 new off d)
      else (panic, d)
