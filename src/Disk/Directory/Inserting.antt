-- ===== src/Disk/Directory/Inserting.antt =====
-- `insert` of dir.rs, as a change of the list of entries.
use tacos.Prelude.{
  subst, ℕ, ◌<◌, ◌≡◌, refl, sym, ap, ◌∙◌, ◌⊎◌, true, List, [], length, arith, inl, inr,
  if◌then◌else◌, ◌==◌,
}
use tacos.Prelude.Outcome.{ok, err, OsError, pure, crash}
use tacos.Prelude.Run.{bind-ok, then-ok, bind-err}
use tacos.Files.Vnode.{Vnode, IsVnode}
use tacos.Files.File.{File, SeekFrom, seek, move_to, isize_bound}
use tacos.Files.File.Laws.{contents}
use tacos.Disk.Directory.{
  min, is_ascii, file_name_len_max, List, ℕ, Vnode, DirEntry, write_from, rounds, seek_invalid,
  first_invalid, named_entry, insert,
}
use tacos.Disk.Directory.Changes.{Leaves}
use tacos.Disk.Directory.Entries.{AllEntries, dir_bytes, length-dir_bytes}
use tacos.Disk.Directory.Walking.{rewind-At, write_from-entry}
use tacos.Disk.Directory.Slots.{
  put_first, put_or_same, inserted_or_full, entry_for, entry_for-IsEntry, Stopped, Full,
  seek_invalid-Stopped,
}

module _ {V : Type 0} (ops : Vnode V) (bytes : V → List ℕ) (Readable Writable : V → Type 0)
    (laws : IsVnode ops bytes Readable Writable) where
  seek_start : (pos : ℕ) (f : File V) → seek ops (SeekFrom.start pos) f ≡ (ok pos, move_to pos f)
  unfolding seek
  seek_start pos f = refl

  insert-found :
      (path : List ℕ) (inum pos : ℕ) (f at : File V)
      → is_ascii path ≡ true
      → length path < 28
      → first_invalid ops f ≡ (ok pos, at)
      → insert ops path inum f ≡ write_from ops (entry_for path inum) (move_to pos at)
  unfolding insert named_entry
  insert-found path inum pos f at ascii short finds =
      let fits : (length path == min (length path) 27) ≡ true = ground arith in
      rw (ascii, insert)
        (bind-ok _ _ {s' = at} {a = pos} finds (
          bind-ok _ _ {s' = at} {a = entry_for path inum}
            (ap (λ b. (if b then pure (entry_for path inum) else crash) at) fits)
            (bind-ok _ _ {s' = move_to pos at} {a = pos} (seek_start pos at) refl)))

  insert-full :
      (path : List ℕ) (inum : ℕ) (f after : File V)
      → is_ascii path ≡ true
      → first_invalid ops f ≡ (err OsError.root_dir_full, after)
      → insert ops path inum f ≡ (err OsError.root_dir_full, after)
  unfolding insert
  insert-full path inum f after ascii misses = rw (ascii, insert) (bind-err _ _ {s' = after} misses)

  first_invalid-runs :
      (es : List DirEntry) (f : File V)
      → contents bytes f ≡ dir_bytes es
      → AllEntries es
      → Readable f.vnode
      → length (contents bytes f) < isize_bound
      → (first_invalid ops f ≡ seek_invalid ops (rounds ops f) (move_to 0 f))
        × (Stopped ops bytes Readable Writable laws (rounds ops f) [] es (move_to 0 f)
            ⊎ Full ops bytes Readable Writable laws (rounds ops f) es (move_to 0 f))
  unfolding first_invalid
  first_invalid-runs es f content entries readable small =
      let (rewinds, at) =
        rewind-At ops bytes Readable Writable laws es f content entries readable small in
      let size : length es < rounds ops f =
        omega (arith, laws.len_lem f.vnode, ap length content, length-dir_bytes es entries) in
      (
        then-ok _ _ rewinds refl,
        seek_invalid-Stopped ops bytes Readable Writable laws (rounds ops f) [] es (move_to 0 f)
            size at,
      )

  -- On a writable directory of fewer than 2 ^ 63 bytes, `insert` of an ASCII path of at most 27 bytes
  -- puts the path and the number, filled up with zeros, in place of the first invalid entry, and
  -- changes no other; where every entry is valid it reports a full directory and changes none.
  pub insert-put_first :
      (path : List ℕ) (inum : ℕ) (es : List DirEntry) (f : File V)
      → is_ascii path ≡ true
      → length path < file_name_len_max
      → inum < 4294967296
      → contents bytes f ≡ dir_bytes es
      → AllEntries es
      → Writable f.vnode
      → length (contents bytes f) < isize_bound
      → let put = put_first (entry_for path inum) es in
        (after : File V) × (insert ops path inum f ≡ (inserted_or_full put, after))
        × Leaves bytes Writable (dir_bytes (put_or_same es put)) after
  insert-put_first path inum es f ascii short fits content entries w small =
      let new = entry_for path inum in
      let (runs, ends) = first_invalid-runs es f content entries (laws.readable f.vnode w) small in
      elim ends [
        | inl x ↦
            let (put, is_put, joined) = x.puts new in
            let w_there = subst Writable (sym x.still) w in
            let back : move_to (length x.before) x.after ≡ x.after =
              ap (λ c. move_to c x.after) (sym x.at.cursor) in
            let (after, writes, at, w_after) =
              write_from-entry ops bytes Readable Writable laws x.before x.slot new x.behind x.after
                (entry_for-IsEntry path inum short fits) x.at w_there in
            (
              after,
              insert-found path inum (length x.before) f x.after ascii short (runs ∙ x.finds)
                  ∙ ap (write_from ops new) back
                  ∙ writes
                  ∙ ap (λ o. (inserted_or_full o, after)) (sym is_put),
              record {
                content = at.content ∙ joined ∙ ap (λ o. dir_bytes (put_or_same es o)) (sym is_put);
                still = w_after;
              },
            )
        | inr x ↦ (
          x.after,
          insert-full path inum f x.after ascii (runs ∙ x.misses)
              ∙ ap (λ o. (inserted_or_full o, x.after)) (sym (x.puts new)),
          record {
            content =
                ap bytes x.still
                ∙ content
                ∙ ap (λ o. dir_bytes (put_or_same es o)) (sym (x.puts new));
            still = subst Writable (sym x.still) w;
          },
        )
      ]
