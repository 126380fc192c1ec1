-- ===== src/Disk/Directory.antt =====
-- src/fs/disk/dir.rs: the root directory, a file of entries of 32 bytes, over any vnode. A path is the
-- list of its bytes (src/fs/disk/path.rs).
pub mod Entries
pub mod Walking
pub mod Lookup
pub mod Changes
pub mod Slots
pub mod Inserting
pub mod Names
pub mod Naming
pub mod Finding
mod Tests
use tacos.Prelude.{
  ℕ, zero, suc, ◌+◌, ◌-◌, ◌*◌, ◌/◌, ◌≤◌, Bool, true, false, not, ◌&&◌, Option, none, some, List, [],
  ◌∷◌, ◌++◌, length, take, drop, set, replicate, get_or, min, ltb, leb, ◌==◌, if◌then◌else◌,
}
use tacos.Prelude.Outcome.{Outcome, ok, err, panic, OsError, Exec, pure, raise, crash}
use tacos.Prelude.Run.{◌>>=◌, ◌>>◌}
use tacos.Prelude.Int.{pos, negsuc}
use tacos.Disk.Inode.Resize.{le_bytes}
use tacos.Disk.Inode.Opening.{le_value}
use tacos.Files.Vnode.{Vnode}
use tacos.Files.File.{File, SeekFrom, read_exact, write_all, seek, rewind}

abbrev pub file_name_len_max : ℕ
file_name_len_max = 28

pub record DirEntry : Type 0 where
  pub name : List ℕ
  pub inum : ℕ

-- '#'
abbrev pub deleted_mark : ℕ
deleted_mark = 35

unfoldable pub is_valid : DirEntry → Bool
is_valid e = not (get_or e.name 0 0 == deleted_mark) && not (get_or e.name 0 0 == 0)

abbrev pub invalidate : DirEntry → DirEntry
invalidate e = record e { name = set e.name 0 deleted_mark }

-- The bytes of an entry, and the entry of 32 bytes.
unfoldable pub entry_bytes : DirEntry → List ℕ
entry_bytes e = e.name ++ le_bytes 4 e.inum

unfoldable pub entry_of : List ℕ → DirEntry
entry_of bytes = record {
  name = take file_name_len_max bytes;
  inum = le_value (take 4 (drop file_name_len_max bytes));
}

-- `CStr::from_ptr`: the bytes in front of the first 0, if there is one.
pub c_str : List ℕ → Option (List ℕ)
c_str [] = none
c_str (b ∷ bs) =
    let rest = c_str bs in
    if b == 0 then some [] else (elim rest [ none ↦ none | some name ↦ some (b ∷ name) ])

-- Whether two texts are the same bytes.
pub same_bytes : List ℕ → List ℕ → Bool
same_bytes [] [] = true
same_bytes [] (c ∷ cs) = false
same_bytes (b ∷ bs) [] = false
same_bytes (b ∷ bs) (c ∷ cs) = b == c && same_bytes bs cs

-- `str::is_ascii`
pub is_ascii : List ℕ → Bool
is_ascii [] = true
is_ascii (b ∷ bs) = ltb b 128 && is_ascii bs

-- An error becomes `none`, as `while let Ok(…)` takes it; a panic stays one.
unfoldable pub attempt : {S A : Type 0} → Exec S A → Exec S (Option A)
attempt m s =
    let (r, s') = m s in
    elim r [ ok a ↦ (ok (some a), s') | err e ↦ (ok none, s') | panic ↦ (panic, s') ]

-- `unwrap`: an error becomes a panic.
unfoldable pub unwrap : {S A : Type 0} → Exec S A → Exec S A
unwrap m s =
    let (r, s') = m s in elim r [ ok a ↦ (ok a, s') | err e ↦ (panic, s') | panic ↦ (panic, s') ]

module _ {V : Type 0} (ops : Vnode V) where
  -- `read_into` and `write_from` of an entry (src/io.rs)
  unfoldable pub read_into : Exec (File V) DirEntry
  read_into = read_exact ops (replicate 32 0) >>= λ bytes. pure (entry_of bytes)

  unfoldable pub write_from : DirEntry → Exec (File V) Unit
  write_from e = write_all ops (entry_bytes e)

  -- More than the entries that a file holds.
  abbrev pub rounds : File V → ℕ
  rounds f = suc (ops.len f.vnode / 32)

  -- A round of the loop of `first_invalid`, with the rounds behind; `unwrap` of the seek panics on an
  -- error.
  unfoldable pub stop_invalid : DirEntry → Exec (File V) ℕ → Exec (File V) ℕ
  stop_invalid e next = elim (is_valid e) [
    | true ↦ next
    | false ↦ unwrap (seek ops (SeekFrom.current (negsuc 31)))
  ]

  -- The loop of `first_invalid`, with the fuel of `search`.
  pub seek_invalid : ℕ → Exec (File V) ℕ
  seek_invalid zero = raise OsError.root_dir_full
  seek_invalid (suc fuel) = attempt read_into >>= λ got. elim got [
    | none ↦ raise OsError.root_dir_full
    | some e ↦ stop_invalid e (seek_invalid fuel)
  ]

  unfoldable pub first_invalid : Exec (File V) ℕ
  first_invalid f = (rewind ops >> seek_invalid (rounds f)) f

  -- The entry that `insert` makes: `copy_from_slice` panics where the lengths differ.
  unfoldable pub named_entry : List ℕ → ℕ → Exec (File V) DirEntry
  named_entry path inum =
      if length path == min (length path) (file_name_len_max - 1)
      then pure
          (record { name = path ++ replicate (file_name_len_max - length path) 0; inum = inum })
      else crash

  unfoldable pub insert : List ℕ → ℕ → Exec (File V) Unit
  insert path inum = elim (is_ascii path) [
    | false ↦ raise OsError.cstr_format_err
    | true ↦ first_invalid >>= λ pos.
        named_entry path inum >>= λ entry. seek ops (SeekFrom.start pos) >>= λ _. write_from entry
  ]

  -- A round of the loop of `remove`, with the rounds behind.
  unfoldable pub clear_entry : ℕ → DirEntry → Exec (File V) Unit → Exec (File V) Unit
  clear_entry inum e next = elim (e.inum == inum) [
    | false ↦ next
    | true ↦ seek ops (SeekFrom.current (negsuc 31)) >>= λ _. write_from (invalidate e) >> next
  ]

  -- The loop of `remove`, with the fuel of `search`.
  pub clear_from : ℕ → ℕ → Exec (File V) Unit
  clear_from zero inum = pure tt
  clear_from (suc fuel) inum = attempt read_into >>= λ got. elim got [
    | none ↦ pure tt
    | some e ↦ clear_entry inum e (clear_from fuel inum)
  ]

  unfoldable pub remove : ℕ → Exec (File V) Unit
  remove inum f = (rewind ops >> clear_from (rounds f) inum) f

  -- `is_utf8` is the check of `CStr::to_str`.
  module _ (is_utf8 : List ℕ → Bool) where
    -- What a round of the loop of `path2inum` does with the entry that it has read, where `next` are
    -- the rounds behind. A name without a 0 among the bytes of its entry is undefined behaviour, a
    -- panic here.
    unfoldable pub match_entry : List ℕ → DirEntry → Exec (File V) ℕ → Exec (File V) ℕ
    match_entry path e next = elim (is_valid e) [
      | false ↦ next
      | true ↦ elim (c_str (entry_bytes e)) [
        | none ↦ crash
        | some name ↦ elim (is_utf8 name) [
          | false ↦ raise OsError.cstr_format_err
          | true ↦ elim (same_bytes path name) [ true ↦ pure e.inum | false ↦ next ]
        ]
      ]
    ]

    -- The loop of `path2inum`. Each round reads an entry, so there is enough fuel where it is more than
    -- the number of entries.
    pub search : ℕ → List ℕ → Exec (File V) ℕ
    unfolding match_entry
    search zero path = raise OsError.no_such_file
    search (suc fuel) path = attempt read_into >>= λ got. elim got [
      | none ↦ raise OsError.no_such_file
      | some e ↦ match_entry path e (search fuel path)
    ]

    unfoldable pub path2inum : List ℕ → Exec (File V) ℕ
    path2inum path f = (rewind ops >> search (rounds f) path) f

    unfoldable pub exists_path : List ℕ → Exec (File V) Bool
    exists_path path f =
        let (r, f') = path2inum path f in
        elim r [ ok inum ↦ (ok true, f') | err e ↦ (ok false, f') | panic ↦ (panic, f') ]
