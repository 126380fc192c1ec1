-- ===== src/Disk/Inode/Opening.antt =====
-- `create` and `open` of inode.rs. The in-memory inode that a call makes takes the place of the one
-- in the state; the disk goes on.
use tacos.Prelude.{
  ℕ, zero, suc, ◌+◌, ◌*◌, ◌/◌, ◌%◌, ◌≤◌, ◌<◌, ◌≡◌, ◌≢◌, refl, ap, ◌∙◌, true, false, inl, inr, ◌⊎◌,
  List, [], ◌∷◌, length, take, drop, replicate, ltb, leb, ◌==◌, ◌&&◌, if◌then◌else◌, get_or, arith,
}
use tacos.Prelude.Outcome.{Outcome, ok, err, OsError, Exec}
use tacos.Prelude.Run.{◌>>=◌, ◌>>◌, bind-ok, then-ok}
use tacos.Disk.FreeMap.{u32_mod}
use tacos.Disk.Inode.{Inode, sector_size, read_sector, write_sector, with_sector}
use tacos.Disk.Inode.Resize.{sum_u32, disk_inode, inode_magic, bytes_to_sectors}
use tacos.Disk.Inode.Slices.{slice}
use tacos.Disk.Inode.Reading.{byte_at, content, IsSound}

-- The number with these bytes, the lowest first.
abbrev pub le_value : List ℕ → ℕ
le_value [] = 0
le_value (b ∷ bs) = b + 256 * le_value bs

-- A new inode in memory: `InodeDesc::new(sector, 0)` with its data.
abbrev pub fresh : ℕ → ℕ → ℕ → Inode → Inode
fresh s start size d = record d {
  sector = s;
  removed = false;
  shrink_len = 0;
  deny_count = 0;
  start = start;
  size = size;
}

-- `[0; SECTOR_SIZE]`
pub zero_sector : List ℕ
zero_sector = replicate sector_size 0

-- The loop of `create` that zeroes the file, by the number of sectors left.
pub zero_sectors : ℕ → ℕ → ℕ → Exec Inode Unit
zero_sectors zero i start d = (ok tt, d)
zero_sectors (suc n) i start d =
    (sum_u32 start i >>= λ target. write_sector target zero_sector >> zero_sectors n (i + 1) start)
      d

pub create : ℕ → ℕ → ℕ → Exec Inode Unit
unfolding zero_sectors zero_sector
create s start len d =
    let made : Inode = fresh s start (len % u32_mod) d in
    (write_sector s (disk_inode made) >> zero_sectors (bytes_to_sectors len) 0 start) made

-- `Inode::open`: the words of the sector, and the check of the magic number.
pub open_inode : ℕ → Exec Inode Unit
open_inode s = read_sector s >>= λ bytes d. elim (le_value (take 4 (drop 8 bytes)) == inode_magic) [
  | true ↦ (ok tt, fresh s (le_value (take 4 bytes)) (le_value (take 4 (drop 4 bytes))) d)
  | false ↦ (Outcome.err OsError.open_invalid_inode, d)
]

-- The bytes of a word of 32 bits bring it back.
pub word :
    (v : ℕ)
    → v < u32_mod
    → v % 256
        + 256
          * (v / 256 % 256
              + 256 * (v / 256 / 256 % 256 + 256 * (v / 256 / 256 / 256 % 256 + 256 * 0)))
      ≡ v
word v h = omega arith

-- From a sector that holds the inode `x`, as flushing it leaves there, `open` brings back its start
-- and its length.
pub open_inode-disk_inode :
    (s : ℕ) (x d : Inode)
    → s < d.capacity
    → d.sectors s ≡ disk_inode x
    → x.start < u32_mod
    → x.size < u32_mod
    → open_inode s d ≡ (ok tt, fresh s x.start x.size d)
unfolding open_inode read_sector
open_inode-disk_inode s x d h e st sz =
    let there : ltb s d.capacity ≡ true = ground arith in
    bind-ok _ _ {s' = d} {a = disk_inode x} (rw there (ap (λ l. (ok l, d)) e))
      (rw (word x.start st, word x.size sz) refl)

-- A sector without the magic number is refused.
pub open_inode-invalid :
    (s : ℕ) (d : Inode)
    → s < d.capacity
    → le_value (take 4 (drop 8 (d.sectors s))) ≢ inode_magic
    → open_inode s d ≡ (err OsError.open_invalid_inode, d)
unfolding open_inode read_sector
open_inode-invalid s d h ne =
    let there : ltb s d.capacity ≡ true = ground arith in
    let wrong : (le_value (take 4 (drop 8 (d.sectors s))) == inode_magic) ≡ false = ground arith in
    bind-ok _ _ {s' = d} {a = d.sectors s} (rw there refl) (rw wrong refl)

-- The sectors after `zero_sectors`.
abbrev zeroed : ℕ → ℕ → ℕ → Inode → ℕ → List ℕ
zeroed n i start d t =
    if leb (start + i) t && ltb t (start + i + n) then zero_sector else d.sectors t

zero_sectors-zeroed :
    (n i start : ℕ) (d : Inode)
    → start + i + n ≤ d.capacity
    → start + i + n < u32_mod
    → (f : ℕ → List ℕ) × (zero_sectors n i start d ≡ (ok tt, record d { sectors = f }))
      × ((t : ℕ) → f t ≡ zeroed n i start d t)
unfolding zero_sectors write_sector
zero_sectors-zeroed zero i start d h fits = (d.sectors, refl, λ t. ground arith)
zero_sectors-zeroed (suc n) i start d h fits =
    let small : ltb (start + i) u32_mod ≡ true = ground arith in
    let there : ltb (start + i) d.capacity ≡ true = ground arith in
    let next : Inode = with_sector (start + i) zero_sector d in
    let (f, runs, at) = zero_sectors-zeroed n (i + 1) start next (omega arith) (omega arith) in
    (
      f,
      bind-ok _ _ {s' = d} {a = start + i} (rw small refl)
          (then-ok _ _ {s' = next} (rw there refl) runs),
      λ t. ground (arith, at t),
    )

pub get_or-zeros : (n i : ℕ) → get_or (replicate n zero) i zero ≡ zero
get_or-zeros zero i = refl
get_or-zeros (suc n) zero = refl
get_or-zeros (suc n) (suc i) = get_or-zeros n i

slice-zeros :
    (f : ℕ → ℕ) (i n : ℕ) → ((k : ℕ) → k < n → f (i + k) ≡ 0) → slice f i n ≡ replicate n 0
unfolding slice
slice-zeros f i zero h = refl
slice-zeros f i (suc n) h =
    let first : f i ≡ 0 = ground (arith, h 0 (omega arith)) in
    let rest : slice f (i + 1) n ≡ replicate n 0 =
      slice-zeros f (i + 1) n (λ k lt. let e = h (k + 1) (omega arith) in ground arith) in
    rw (first, rest) refl

zero_sector-at : (i : ℕ) → get_or zero_sector i 0 ≡ 0
unfolding zero_sector
zero_sector-at i = get_or-zeros sector_size i

length-zero_sector : length zero_sector ≡ sector_size
unfolding zero_sector
length-zero_sector = refl

-- What `create` leaves: an inode of that length at the sector, all bytes of which are 0, and which
-- `open` brings back.
pub record Created (s len : ℕ) (after : Inode) : Type 0 where
  pub sound : IsSound after
  pub sector : after.sector ≡ s
  pub size : after.size ≡ len
  pub zeros : content after ≡ replicate len 0
  pub reopens : open_inode s after ≡ (ok tt, after)

-- On a device with the sectors that it is given, `create` succeeds where the inode's sector is none
-- of the file's. The file has the length asked for, all its bytes are 0, and `open` of the sector
-- brings back the same inode.
pub create-Created :
    (s start len : ℕ) (d : Inode)
    → ((t : ℕ) → length (d.sectors t) ≡ sector_size)
    → s < d.capacity
    → len < u32_mod
    → start + bytes_to_sectors len ≤ d.capacity
    → start + bytes_to_sectors len < u32_mod
    → (s < start) ⊎ (start + bytes_to_sectors len ≤ s)
    → (after : Inode) × (create s start len d ≡ (ok tt, after)) × Created s len after
unfolding create write_sector byte_at
create-Created s start len d whole h fits room small apart =
    let made : Inode = fresh s start len d in
    let full : Inode = with_sector s (disk_inode made) made in
    let n = bytes_to_sectors len in
    let there : ltb s d.capacity ≡ true = ground arith in
    let cut : len % u32_mod ≡ len = omega arith in
    let (f, runs, at) = zero_sectors-zeroed n 0 start full (omega arith) (omega arith) in
    let after : Inode = record full { sectors = f } in
    let kept : f s ≡ disk_inode made = elim apart [
      | inl lt ↦ ground (arith, at s)
      | inr gt ↦ ground (arith, at s)
    ] in
    (
      after,
      ap
            (λ z.
              (write_sector s (disk_inode (fresh s start z d)) >> zero_sectors n 0 start)
                (fresh s start z d))
            cut
          ∙ then-ok _ _ {s' = full} (rw there refl) runs,
      record {
        sound = record {
          whole = λ t. ground (arith, at t, whole t, length-zero_sector);
          inside = λ i lt. omega arith;
          fits = fits;
        };
        sector = refl;
        size = refl;
        zeros = slice-zeros (byte_at after) 0 len (λ k lt.
            let zero_there : f (start + (0 + k) / sector_size) ≡ zero_sector =
              ground (arith, at (start + (0 + k) / sector_size)) in
            rw zero_there (zero_sector-at ((0 + k) % sector_size)));
        reopens = open_inode-disk_inode s made after h kept (omega arith) fits;
      },
    )
