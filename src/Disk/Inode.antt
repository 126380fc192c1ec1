-- ===== src/Disk/Inode.antt =====
-- src/fs/disk/inode.rs: reading and writing the sectors of a file. The device keeps 512 bytes for each
-- sector below its capacity, and a request for another sector fails the assertion of the driver
-- (src/device/virtio.rs). The in-memory inode and the disk are one state.
pub mod Slices
pub mod Reading
pub mod Writing
pub mod Resize
pub mod Opening
pub mod Contract
pub mod Shrink
mod Tests
use tacos.Prelude.{
  ℕ, zero, suc, ◌+◌, ◌-◌, ◌/◌, ◌%◌, ◌^◌, Bool, true, false, ◌&&◌, List, [], ◌∷◌, ◌++◌, length, take,
  drop, min, ltb, leb, ◌==◌, if◌then◌else◌, get_or,
}
use tacos.Prelude.Outcome.{Outcome, ok, err, panic, OsError, Exec, pure, raise, crash}
use tacos.Disk.FreeMap.{FreeMap}
use tacos.Prelude.Run.{◌>>=◌, ◌>>◌}

abbrev pub sector_size : ℕ
sector_size = 512

abbrev pub page_size : ℕ
page_size = 4096

-- `InodeDesc` and `DiskInodeInner` of an open inode, and the disk.
pub record Inode : Type 0 where
  pub sector : ℕ
  pub removed : Bool
  pub shrink_len : ℕ
  pub deny_count : ℕ
  pub start : ℕ
  pub size : ℕ
  pub sectors : ℕ → List ℕ
  pub capacity : ℕ
  pub free_map : FreeMap

-- `Virtio::read_sector` and `Virtio::write_sector`
unfoldable pub read_sector : ℕ → Exec Inode (List ℕ)
read_sector s d = if ltb s d.capacity then (ok (d.sectors s), d) else (panic, d)

abbrev pub with_sector : ℕ → List ℕ → Inode → Inode
with_sector s bytes d = record d { sectors = λ t. if s == t then bytes else d.sectors t }

unfoldable pub write_sector : ℕ → List ℕ → Exec Inode Unit
write_sector s bytes d = if ltb s d.capacity then (ok tt, with_sector s bytes d) else (panic, d)

-- How many bytes the next round moves.
abbrev pub chunk_size : ℕ → ℕ → ℕ → ℕ
chunk_size size off left = min (min (size - off) (sector_size - off % sector_size)) left

-- `address` is where the buffer of the caller is, and `translates` says of an address whether the
-- sector of the buffer there has a kernel address, which a whole sector is moved to or from directly.
module _ (address : ℕ) (translates : ℕ → Bool) where
  -- Whether a round goes without the bounce buffer.
  abbrev pub is_direct : ℕ → ℕ → Bool
  is_direct done chunk =
      (chunk == sector_size) && leb ((address + done) % page_size) (page_size - sector_size)

  -- The bytes that a round of `read_at` copies to the buffer.
  pub fetch : ℕ → ℕ → ℕ → Exec Inode (List ℕ)
  fetch done off chunk d =
      let sector = d.start + off / sector_size in
      elim (is_direct done chunk) [
        | true ↦ elim (translates (address + done)) [
          | true ↦ read_sector sector d
          | false ↦ (Outcome.err OsError.bad_ptr, d)
        ]
        | false ↦
            (read_sector sector >>= λ bounce. pure (take chunk (drop (off % sector_size) bounce))) d
      ]

  -- The loop of `read_at`: `done` bytes have been read and `left` fit in the buffer. Every round that
  -- goes on reads at least one byte, so the length of the buffer is enough fuel.
  pub read_from : ℕ → ℕ → ℕ → ℕ → Exec Inode (List ℕ)
  read_from zero done left off d = (ok [], d)
  read_from (suc fuel) done left off d =
      let chunk = chunk_size d.size off left in
      elim (chunk == 0) [
        | true ↦ (ok [], d)
        | false ↦
            (fetch done off chunk >>= λ got.
            read_from fuel (done + chunk) (left - chunk) (off + chunk) >>= λ rest.
            pure (got ++ rest))
              d
      ]

  -- `read_at`: the number of bytes read, and the buffer with those bytes in front.
  unfoldable pub read_at : List ℕ → ℕ → Exec Inode (ℕ × List ℕ)
  unfolding read_from fetch
  read_at buf off = read_from (length buf) 0 (length buf) off >>= λ got.
      pure (length got, got ++ drop (length got) buf)

  -- A round of `write_at`, which takes `chunk` bytes in front of `new`.
  unfoldable pub store : ℕ → ℕ → ℕ → List ℕ → Exec Inode Unit
  store done off chunk new d =
      let sector = d.start + off / sector_size in
      let so = off % sector_size in
      elim (is_direct done chunk) [
        | true ↦ elim (translates (address + done)) [
          | true ↦ write_sector sector (take chunk new) d
          | false ↦ (Outcome.err OsError.bad_ptr, d)
        ]
        | false ↦
            (read_sector sector >>= λ bounce.
            write_sector sector (take so bounce ++ (take chunk new ++ drop (so + chunk) bounce)))
              d
      ]

  -- The loop of `write_at`, which answers the number of bytes written, with the fuel of `read_from`.
  unfoldable pub write_from : ℕ → ℕ → List ℕ → ℕ → Exec Inode ℕ
  write_from zero done new off d = (ok done, d)
  write_from (suc fuel) done new off d =
      let chunk = chunk_size d.size off (length new) in
      elim (chunk == 0) [
        | true ↦ (ok done, d)
        | false ↦
            (store done off chunk new
                >> write_from fuel (done + chunk) (drop chunk new) (off + chunk))
              d
      ]
