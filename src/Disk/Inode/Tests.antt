-- ===== src/Disk/Inode/Tests.antt =====
-- A file of 700 bytes in two sectors of a disk of eight, every byte of which is 7.
use tacos.Prelude.{
  inl, ℕ, ◌+◌, ◌-◌, ◌≡◌, refl, Bool, true, false, List, [], ◌∷◌, ◌++◌, length, take, drop, min,
  replicate, arith,
}
use tacos.Prelude.Outcome.{ok, err, OsError}
use tacos.Disk.Inode.{with_sector, Inode, read_at}
use tacos.Disk.Inode.Resize.{write_at}
use tacos.Disk.Inode.Reading.{content, IsSound, read_at-content}
use tacos.Disk.Inode.Writing.{write_at-content}
use tacos.Disk.Inode.Contract.{inode, IsWritable, inode-IsVnode}
use tacos.Disk.Inode.Resize.{resize_inner, disk_inode}
use tacos.Disk.Inode.Shrink.{IsOwn, Shrunk, resize_inner-Shrunk}
use tacos.Disk.Inode.Opening.{
  create, open_inode, fresh, Created, open_inode-disk_inode, open_inode-invalid, create-Created,
}
use tacos.Files.Vnode.{IsVnode}

abbrev bytes : List ℕ
bytes = replicate 512 7

abbrev file : Inode
file = record {
  sector = 2;
  removed = false;
  shrink_len = 0;
  deny_count = 0;
  start = 3;
  size = 700;
  sectors = λ s. bytes;
  capacity = 8;
  free_map = record { size = 8; bits = 31 ∷ [] };
}

abbrev mapped : ℕ → Bool
mapped a = true

file-IsSound : IsSound file
file-IsSound = record { whole = λ s. refl; inside = λ i h. omega arith; fits = omega arith }

abbrev buffer : List ℕ
buffer = 1 ∷ 2 ∷ 3 ∷ []

read_at-content_example : read_at 0x1000 mapped buffer 511 file ≡ (
  ok (
    min (file.size - 511) (length buffer),
    take (min (file.size - 511) (length buffer)) (drop 511 (content file))
        ++ drop (min (file.size - 511) (length buffer)) buffer,
  ),
  file,
)
read_at-content_example = read_at-content 0x1000 mapped (λ a. refl) buffer 511 file file-IsSound

write_at-content_example :
    (after : Inode) × (write_at 0x1000 mapped buffer 511 file ≡ (ok (length buffer), after))
    × (content after
        ≡ take 511 (content file) ++ (buffer ++ drop (511 + length buffer) (content file)))
    × IsSound after
    × (after.size ≡ file.size)
    × (after.deny_count ≡ 0)
write_at-content_example =
    write_at-content 0x1000 mapped (λ a. refl) buffer 511 file file-IsSound refl (omega arith)

inode-IsVnode_example : IsVnode (inode 0x1000 mapped) content IsSound IsWritable
inode-IsVnode_example = inode-IsVnode 0x1000 mapped (λ a. refl)

file-IsOwn : IsOwn file
file-IsOwn = record { inside = omega arith; apart = λ i h. ground arith }

resize_inner-Shrunk_example :
    (after : Inode) × (resize_inner 100 file ≡ (ok tt, after)) × Shrunk 100 file after
resize_inner-Shrunk_example =
    resize_inner-Shrunk 100 file file-IsSound file-IsOwn (omega arith) (omega arith)

open_inode-disk_inode_example :
    open_inode 2 (with_sector 2 (disk_inode file) file)
    ≡ (ok tt, fresh 2 3 700 (with_sector 2 (disk_inode file) file))
open_inode-disk_inode_example =
    open_inode-disk_inode 2 file (with_sector 2 (disk_inode file) file) (omega arith) refl
      (omega arith) (omega arith)

open_inode-invalid_example : open_inode 4 file ≡ (err OsError.open_invalid_inode, file)
open_inode-invalid_example = open_inode-invalid 4 file (omega arith) (ground arith)

create-Created_example :
    (after : Inode) × (create 5 6 900 file ≡ (ok tt, after)) × Created 5 900 after
create-Created_example =
    create-Created 5 6 900 file (λ t. refl) (omega arith) (omega arith) (omega arith) (omega arith)
      (inl (omega arith))
