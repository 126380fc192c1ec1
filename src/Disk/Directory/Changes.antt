-- ===== src/Disk/Directory/Changes.antt =====
-- `remove` of dir.rs, as a change of the list of entries.
use tacos.Prelude.{
  ℕ, zero, suc, ◌+◌, ◌<◌, ◌≡◌, refl, sym, ap, ◌∙◌, true, false, List, [], ◌∷◌, ◌++◌, length, arith,
  inl, inr, Bool-cases, if◌then◌else◌, ◌==◌,
}
use tacos.Prelude.Int.{negsuc}
use tacos.Prelude.Outcome.{ok, Exec}
use tacos.Prelude.Run.{◌>>=◌, ◌>>◌, bind-ok, then-ok}
use tacos.Files.Vnode.{Vnode, IsVnode}
use tacos.Files.File.{File, SeekFrom, seek, move_to, isize_bound}
use tacos.Files.File.Laws.{contents}
use tacos.Disk.Directory.{
  List, ℕ, Vnode, DirEntry, invalidate, entry_bytes, write_from, rounds, clear_entry, clear_from,
  remove,
}
use tacos.Disk.Directory.Entries.{
  IsEntry, AllEntries, dir_bytes, length-dir_bytes, invalidate-IsEntry, append_assoc,
}
use tacos.Disk.Directory.Walking.{
  At, read_into-entry, read_into-end, rewind-At, seek_back, write_from-entry,
}

-- The entries with this number, invalidated.
abbrev pub clear_all : ℕ → List DirEntry → List DirEntry
clear_all inum [] = []
clear_all inum (e ∷ es) = (if e.inum == inum then invalidate e else e) ∷ clear_all inum es

-- What a change of the directory leaves.
pub record Leaves {V : Type 0} (bytes : V → List ℕ) (Writable : V → Type 0) (left : List ℕ)
    (after : File V) : Type 0 where
  pub content : contents bytes after ≡ left
  pub still : Writable after.vnode

module _ {V : Type 0} (ops : Vnode V) (bytes : V → List ℕ) (Readable Writable : V → Type 0)
    (laws : IsVnode ops bytes Readable Writable) where
  abbrev InDir : List ℕ → List DirEntry → File V → Type 0
  InDir = At ops bytes Readable Writable laws

  -- Back at the entry that has just been read.
  pub rewound :
      (done : List ℕ) (e : DirEntry) (rest : List DirEntry) (f : File V)
      → IsEntry e
      → InDir (done ++ entry_bytes e) rest f
      → InDir done (e ∷ rest) (move_to (length done) f)
  rewound done e rest f entry at = record {
    content = at.content ∙ sym (append_assoc done (entry_bytes e) (dir_bytes rest));
    cursor = refl;
    entries = (entry, at.entries);
    readable = at.readable;
    small = at.small;
  }

  clear_entry-other :
      (inum : ℕ) (e : DirEntry) (next : Exec (File V) Unit)
      → (e.inum == inum) ≡ false
      → clear_entry ops inum e next ≡ next
  unfolding clear_entry
  clear_entry-other inum e next other = rw (other, clear_entry) refl

  clear_entry-equal :
      (inum : ℕ) (e : DirEntry) (next : Exec (File V) Unit)
      → (e.inum == inum) ≡ true
      → clear_entry ops inum e next
        ≡ (seek ops (SeekFrom.current (negsuc 31)) >>= λ _. write_from ops (invalidate e) >> next)
  unfolding clear_entry
  clear_entry-equal inum e next equal = rw (equal, clear_entry) refl

  clear_from-entry :
      (fuel inum : ℕ) (done : List ℕ) (e : DirEntry) (rest : List DirEntry) (f : File V)
      → InDir done (e ∷ rest) f
      → clear_from ops (suc fuel) inum f
        ≡ clear_entry ops inum e (clear_from ops fuel inum) (move_to (f.cursor + 32) f)
  unfolding clear_from
  clear_from-entry fuel inum done e rest f at =
      let (reads, _) = read_into-entry ops bytes Readable Writable laws done e rest f at in
      bind-ok _ _ reads refl

  clear_from-end :
      (fuel inum : ℕ) (done : List ℕ) (f : File V)
      → InDir done [] f
      → clear_from ops (suc fuel) inum f ≡ (ok tt, f)
  unfolding clear_from
  clear_from-end fuel inum done f at =
      bind-ok _ _ (read_into-end ops bytes Readable Writable laws done f at) refl

  clear_from-Leaves :
      (fuel inum : ℕ) (done : List ℕ) (rest : List DirEntry) (f : File V)
      → length rest < fuel
      → InDir done rest f
      → Writable f.vnode
      → (after : File V) × (clear_from ops fuel inum f ≡ (ok tt, after))
        × Leaves bytes Writable (done ++ dir_bytes (clear_all inum rest)) after
  clear_from-Leaves zero inum done rest f h at w = absurd (omega arith)
  clear_from-Leaves (suc fuel) inum done [] f h at w =
      (f, clear_from-end fuel inum done f at, record { content = at.content; still = w })
  clear_from-Leaves (suc fuel) inum done (e ∷ rest) f h at w =
      let (_, behind) = read_into-entry ops bytes Readable Writable laws done e rest f at in
      let next = move_to (f.cursor + 32) f in
      let rounds_behind = clear_from ops fuel inum in
      let step = clear_from-entry fuel inum done e rest f at in
      let seam =
        λ (new : DirEntry). append_assoc done (entry_bytes new) (dir_bytes (clear_all inum rest)) in
      elim (Bool-cases (e.inum == inum)) [
        | inr other ↦
            let (after, more, x) =
              clear_from-Leaves fuel inum (done ++ entry_bytes e) rest next (omega arith) behind
                w in
            (
              after,
              step ∙ ap (λ m. m next) (clear_entry-other inum e rounds_behind other) ∙ more,
              record {
                content =
                    x.content
                    ∙ sym (seam e)
                    ∙ ap
                        (λ b.
                          done
                          ++ (entry_bytes (if b then invalidate e else e)
                              ++ dir_bytes (clear_all inum rest)))
                        (sym other);
                still = x.still;
              },
            )
        | inl equal ↦
            let back = move_to (length done) next in
            let (written, writes, at_next, w_next) =
              write_from-entry ops bytes Readable Writable laws done e (invalidate e) rest back
                (invalidate-IsEntry e at.entries.0) (rewound done e rest next at.entries.0 behind)
                w in
            let (after, more, x) =
              clear_from-Leaves fuel inum (done ++ entry_bytes (invalidate e)) rest written
                (omega arith) at_next w_next in
            (
              after,
              step
                  ∙ ap (λ m. m next) (clear_entry-equal inum e rounds_behind equal)
                  ∙ bind-ok _ _ {s' = back} {a = length done}
                      (seek_back ops bytes Readable Writable laws done e rest next at.entries.0
                        behind)
                      (then-ok _ _ writes more),
              record {
                content =
                    x.content
                    ∙ sym (seam (invalidate e))
                    ∙ ap
                        (λ b.
                          done
                          ++ (entry_bytes (if b then invalidate e else e)
                              ++ dir_bytes (clear_all inum rest)))
                        (sym equal);
                still = x.still;
              },
            )
      ]

  -- On a writable directory of fewer than 2 ^ 63 bytes, `remove` succeeds: every entry with that
  -- number is invalidated, and the others stay as they were.
  pub remove-clear_all :
      (inum : ℕ) (es : List DirEntry) (f : File V)
      → contents bytes f ≡ dir_bytes es
      → AllEntries es
      → Writable f.vnode
      → length (contents bytes f) < isize_bound
      → (after : File V) × (remove ops inum f ≡ (ok tt, after))
        × Leaves bytes Writable (dir_bytes (clear_all inum es)) after
  unfolding remove
  remove-clear_all inum es f content entries w small =
      let (rewinds, at) =
        rewind-At ops bytes Readable Writable laws es f content entries (laws.readable f.vnode w)
          small in
      let size : length es < rounds ops f =
        omega (arith, laws.len_lem f.vnode, ap length content, length-dir_bytes es entries) in
      let (after, runs, x) = clear_from-Leaves (rounds ops f) inum [] es (move_to 0 f) size at w in
      (after, then-ok _ _ rewinds runs, record { content = x.content; still = x.still })
