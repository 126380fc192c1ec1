-- ===== src/Disk/Directory/Tests.antt =====
-- A directory in memory with the entries "ab", a deleted one and "c".
use tacos.Prelude.{ℕ, ◌≡◌, refl, Bool, true, none, some, List, [], ◌∷◌, ◌++◌, replicate, arith}
use tacos.Prelude.Outcome.{ok}
use tacos.Files.Vnode.{Vnode, IsVnode}
use tacos.Files.File.{File}
use tacos.Files.Memory.{memory_inode}
use tacos.Files.Memory.Laws.{memory_inode-IsVnode}
use tacos.Disk.Directory.{
  Option, false, DirEntry, path2inum, insert, remove, is_valid, c_str, entry_bytes, same_bytes,
  is_ascii,
}
use tacos.Disk.Directory.Entries.{dir_bytes}
use tacos.Disk.Directory.Naming.{FirstNamed, path2inum-FirstNamed}
use tacos.Disk.Directory.Lookup.{IsNamed, find_inum, found_or_missing}
use tacos.Disk.Directory.Changes.{Leaves, clear_all}
use tacos.Disk.Directory.Slots.{put_first, put_or_same, inserted_or_full, entry_for}
use tacos.Disk.Directory.Inserting.{insert-put_first}
use tacos.Disk.Directory.Names.{IsPlain}
use tacos.Disk.Directory.Finding.{IsDirectory, find_other, path2inum-insert, path2inum-remove}

abbrev ops : Vnode (List ℕ)
ops = memory_inode (λ bytes. 0x1000)

abbrev bytes : List ℕ → List ℕ
bytes v = v

abbrev Always : List ℕ → Type 0
Always v = Unit

laws : IsVnode ops bytes Always Always
laws = memory_inode-IsVnode (λ bytes. 0x1000)

-- Every text passes.
abbrev is_utf8 : List ℕ → Bool
is_utf8 text = true

abbrev ab_name : List ℕ
ab_name = 97 ∷ 98 ∷ []

abbrev c_name : List ℕ
c_name = 99 ∷ []

abbrev d_name : List ℕ
d_name = 100 ∷ []

abbrev ab_entry : DirEntry
ab_entry = record { name = ab_name ++ replicate 26 0; inum = 700 }

abbrev deleted : DirEntry
deleted = record { name = 35 ∷ 98 ∷ replicate 26 0; inum = 5 }

abbrev c_entry : DirEntry
c_entry = record { name = c_name ++ replicate 27 0; inum = 9 }

abbrev entries : List DirEntry
entries = ab_entry ∷ deleted ∷ c_entry ∷ []

abbrev dir : File (List ℕ)
dir = record { vnode = dir_bytes entries; cursor = 7; denies_write = false }

ab-IsNamed : IsNamed is_utf8 ab_entry
unfolding c_str entry_bytes
ab-IsNamed = record { name = λ valid. (ab_name, refl, refl) }

deleted-IsNamed : IsNamed is_utf8 deleted
unfolding is_valid
deleted-IsNamed = record { name = λ valid. absurd cc }

c-IsNamed : IsNamed is_utf8 c_entry
unfolding c_str entry_bytes
c-IsNamed = record { name = λ valid. (c_name, refl, refl) }

dir-IsDirectory : IsDirectory is_utf8 ops bytes Always Always laws entries dir
dir-IsDirectory = record {
  content = refl;
  entries = (
    record { name_size = refl; inum_fits = omega arith },
    (
      record { name_size = refl; inum_fits = omega arith },
      (record { name_size = refl; inum_fits = omega arith }, tt),
    ),
  );
  named = (ab-IsNamed, (deleted-IsNamed, (c-IsNamed, tt)));
  still = tt;
  small = omega arith;
}

d-IsPlain : IsPlain d_name
unfolding is_ascii
d-IsPlain = record {
  ascii = refl;
  some_byte = omega arith;
  short = omega arith;
  unmarked = refl;
  no_zero = (refl, tt);
}

abbrev with_d : List DirEntry
with_d = ab_entry ∷ entry_for d_name 44 ∷ c_entry ∷ []

d-missing : find_inum d_name entries ≡ none
unfolding is_valid c_str entry_bytes same_bytes
d-missing = refl

d-room : put_first (entry_for d_name 44) entries ≡ some with_d
unfolding is_valid
d-room = refl

path2inum-FirstNamed_example :
    (found : Option ℕ) × FirstNamed c_name entries found
    × (after : File (List ℕ)) × (path2inum ops is_utf8 c_name dir ≡ (found_or_missing found, after))
    × (after.vnode ≡ dir.vnode)
unfolding entry_bytes
path2inum-FirstNamed_example =
    path2inum-FirstNamed is_utf8 ops bytes Always Always laws c_name entries dir refl
      dir-IsDirectory.entries dir-IsDirectory.named tt (omega arith)

insert-put_first_example :
    let put = put_first (entry_for d_name 44) entries in
    (after : File (List ℕ)) × (insert ops d_name 44 dir ≡ (inserted_or_full put, after))
    × Leaves bytes Always (dir_bytes (put_or_same entries put)) after
unfolding is_ascii entry_bytes
insert-put_first_example =
    insert-put_first ops bytes Always Always laws d_name 44 entries dir refl (omega arith)
      (omega arith) refl dir-IsDirectory.entries tt (omega arith)

path2inum-insert_example :
    (mid after : File (List ℕ)) × (insert ops d_name 44 dir ≡ (ok tt, mid))
    × IsDirectory is_utf8 ops bytes Always Always laws with_d mid
    × (path2inum ops is_utf8 d_name mid ≡ (ok 44, after))
path2inum-insert_example =
    path2inum-insert is_utf8 ops bytes Always Always laws d_name 44 entries with_d dir d-IsPlain
      refl (omega arith) dir-IsDirectory d-missing d-room

path2inum-remove_example :
    (mid after : File (List ℕ)) × (remove ops 9 dir ≡ (ok tt, mid))
    × IsDirectory is_utf8 ops bytes Always Always laws (clear_all 9 entries) mid
    × (path2inum ops is_utf8 c_name mid ≡ (found_or_missing (find_other 9 c_name entries), after))
path2inum-remove_example =
    path2inum-remove is_utf8 ops bytes Always Always laws c_name 9 entries dir dir-IsDirectory
