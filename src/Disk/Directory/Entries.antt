-- ===== src/Disk/Directory/Entries.antt =====
-- An entry of dir.rs and its 32 bytes.
use tacos.Prelude.{
  ℕ, ◌*◌, ◌<◌, ◌≡◌, refl, ap, ◌∙◌, subst, List, [], ◌∷◌, ◌++◌, length, take, drop, arith,
  length-append, length-set, take-append_exact, drop-append_exact,
}
use tacos.Disk.Inode.Resize.{le_bytes}
use tacos.Disk.Inode.Opening.{le_value}
use tacos.Disk.Directory.{DirEntry, entry_bytes, entry_of, invalidate}

-- A name of 28 bytes, and a number of 32 bits.
pub record IsEntry (e : DirEntry) : Type 0 where
  pub name_size : length e.name ≡ 28
  pub inum_fits : e.inum < 4294967296

le_value-le_bytes : (v : ℕ) → v < 4294967296 → le_value (take 4 (le_bytes 4 v)) ≡ v
le_value-le_bytes v h = omega arith

pub length-entry_bytes : (e : DirEntry) → IsEntry e → length (entry_bytes e) ≡ 32
unfolding entry_bytes
length-entry_bytes e h = omega (arith, length-append e.name (le_bytes 4 e.inum), h.name_size)

-- Reading back the bytes of an entry gives the entry.
pub entry_of-entry_bytes : (e : DirEntry) → IsEntry e → entry_of (entry_bytes e) ≡ e
unfolding entry_of entry_bytes
entry_of-entry_bytes e h =
    let name : take 28 (e.name ++ le_bytes 4 e.inum) ≡ e.name =
      subst (λ n. take n (e.name ++ le_bytes 4 e.inum) ≡ e.name) h.name_size
        (take-append_exact e.name (le_bytes 4 e.inum)) in
    let number : drop 28 (e.name ++ le_bytes 4 e.inum) ≡ le_bytes 4 e.inum =
      subst (λ n. drop n (e.name ++ le_bytes 4 e.inum) ≡ le_bytes 4 e.inum) h.name_size
        (drop-append_exact e.name (le_bytes 4 e.inum)) in
    ap {A = List ℕ} {B = DirEntry}
      (λ l. record { name = l; inum = le_value (take 4 (drop 28 (e.name ++ le_bytes 4 e.inum))) })
      name
    ∙ ap {A = ℕ} {B = DirEntry} (λ n. record { name = e.name; inum = n })
        (ap (λ l. le_value (take 4 l)) number ∙ le_value-le_bytes e.inum h.inum_fits)

pub invalidate-IsEntry : (e : DirEntry) → IsEntry e → IsEntry (invalidate e)
invalidate-IsEntry e h = record {
  name_size = length-set e.name 0 35 ∙ h.name_size;
  inum_fits = h.inum_fits;
}

-- The bytes of a directory.
abbrev pub dir_bytes : List DirEntry → List ℕ
dir_bytes [] = []
dir_bytes (e ∷ es) = entry_bytes e ++ dir_bytes es

abbrev pub AllEntries : List DirEntry → Type 0
AllEntries [] = Unit
AllEntries (e ∷ es) = IsEntry e × AllEntries es

pub length-dir_bytes : (es : List DirEntry) → AllEntries es → length (dir_bytes es) ≡ 32 * length es
length-dir_bytes [] h = refl
length-dir_bytes (e ∷ es) h = omega (
  arith,
  length-append (entry_bytes e) (dir_bytes es),
  length-entry_bytes e h.0,
  length-dir_bytes es h.1,
)

pub append_assoc : (xs ys zs : List ℕ) → xs ++ (ys ++ zs) ≡ (xs ++ ys) ++ zs
append_assoc [] ys zs = refl
append_assoc (x ∷ xs) ys zs = ap (λ l. x ∷ l) (append_assoc xs ys zs)
