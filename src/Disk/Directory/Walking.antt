-- ===== src/Disk/Directory/Walking.antt =====
-- The steps that the loops of dir.rs are made of: an entry is read, the end is met, and the entry that
-- has been read is written anew.
use tacos.Prelude.{
  ℕ, ◌+◌, ◌*◌, ◌<◌, ◌≡◌, refl, ap, ◌∙◌, subst, some, none, List, [], ◌∷◌, ◌++◌, length, take, drop,
  replicate, max, arith, length-append, take-append_exact, drop-append_exact,
}
use tacos.Prelude.Int.{negsuc}
use tacos.Prelude.Outcome.{ok, err, panic, OsError}
use tacos.Prelude.Run.{◌>>◌, bind-ok, bind-err}
use tacos.Files.Vnode.{Vnode, IsVnode}
use tacos.Files.File.{File, SeekFrom, move_to, isize_bound, seek, rewind}
use tacos.Files.File.Laws.{contents, read_exact-fits, read_exact-eof, write_all-fits}
use tacos.Files.File.Position.{seek-IsTarget}
use tacos.Disk.Directory.{DirEntry, entry_bytes, attempt, read_into, write_from}
use tacos.Disk.Directory.Entries.{
  IsEntry, AllEntries, dir_bytes, length-entry_bytes, entry_of-entry_bytes, length-dir_bytes,
  append_assoc,
}

module _ {V : Type 0} (ops : Vnode V) (bytes : V → List ℕ) (Readable Writable : V → Type 0)
    (laws : IsVnode ops bytes Readable Writable) where
  -- The cursor stands behind the bytes `done` and in front of the entries `rest`, which are the whole file.
  pub record At (done : List ℕ) (rest : List DirEntry) (f : File V) : Type 0 where
    pub content : contents bytes f ≡ done ++ dir_bytes rest
    pub cursor : f.cursor ≡ length done
    pub entries : AllEntries rest
    pub readable : Readable f.vnode
    pub small : length (contents bytes f) < isize_bound

  At-size :
      (done : List ℕ) (rest : List DirEntry) (f : File V)
      → At done rest f
      → length (contents bytes f) ≡ length done + 32 * length rest
  At-size done rest f at = omega (
    arith,
    ap length at.content,
    length-append done (dir_bytes rest),
    length-dir_bytes rest at.entries,
  )

  pub read_into-entry :
      (done : List ℕ) (e : DirEntry) (rest : List DirEntry) (f : File V)
      → At done (e ∷ rest) f
      → (attempt (read_into ops) f ≡ (ok (some e), move_to (f.cursor + 32) f))
        × At (done ++ entry_bytes e) rest (move_to (f.cursor + 32) f)
  unfolding attempt read_into
  read_into-entry done e rest f at =
      let size = At-size done (e ∷ rest) f at in
      let e_size = length-entry_bytes e at.entries.0 in
      let after = move_to (f.cursor + 32) f in
      let behind : drop f.cursor (contents bytes f) ≡ entry_bytes e ++ dir_bytes rest =
        ap (λ l. drop f.cursor l) at.content
        ∙ ap (λ n. drop n (done ++ dir_bytes (e ∷ rest))) at.cursor
        ∙ drop-append_exact done (dir_bytes (e ∷ rest)) in
      let got : take 32 (drop f.cursor (contents bytes f)) ≡ entry_bytes e =
        ap (take 32) behind
        ∙ subst (λ n. take n (entry_bytes e ++ dir_bytes rest) ≡ entry_bytes e) e_size
            (take-append_exact (entry_bytes e) (dir_bytes rest)) in
      let reads : read_into ops f ≡ (ok e, after) =
        bind-ok _ _ {s' = after} {a = entry_bytes e}
          (read_exact-fits ops bytes Readable Writable laws (replicate 32 0) f at.readable
              (omega (arith, at.cursor)) (omega (arith, at.small))
            ∙ ap (λ l. (ok l, after)) got)
          (ap (λ x. (ok x, after)) (entry_of-entry_bytes e at.entries.0)) in
      (
        ap
            (λ r. elim r.0 [
              | ok a ↦ (ok (some a), r.1)
              | err e ↦ (ok none, r.1)
              | panic ↦ (panic, r.1)
            ])
            reads,
        record {
          content = at.content ∙ append_assoc done (entry_bytes e) (dir_bytes rest);
          cursor = omega (arith, at.cursor, e_size, length-append done (entry_bytes e));
          entries = at.entries.1;
          readable = at.readable;
          small = at.small;
        },
      )

  pub read_into-end :
      (done : List ℕ) (f : File V) → At done [] f → attempt (read_into ops) f ≡ (ok none, f)
  unfolding attempt read_into
  read_into-end done f at =
      let size = At-size done [] f at in
      let stays : max f.cursor (length (contents bytes f)) ≡ f.cursor = omega (arith, at.cursor) in
      let reads : read_into ops f ≡ (err OsError.unexpected_eof, f) = bind-err _ _ {s' = f} (
        read_exact-eof ops bytes Readable Writable laws (replicate 32 0) f at.readable (omega arith)
          (omega (arith, at.cursor)) (omega (arith, at.small)) (omega (arith, at.cursor, at.small))
        ∙ ap (λ c. (err OsError.unexpected_eof, move_to c f)) stays) in
      ap
        (λ r. elim r.0 [
          | ok a ↦ (ok (some a), r.1)
          | err e ↦ (ok none, r.1)
          | panic ↦ (panic, r.1)
        ])
        reads

  pub rewind-At :
      (es : List DirEntry) (f : File V)
      → contents bytes f ≡ dir_bytes es
      → AllEntries es
      → Readable f.vnode
      → length (contents bytes f) < isize_bound
      → (rewind ops f ≡ (ok tt, move_to 0 f)) × At [] es (move_to 0 f)
  unfolding rewind seek ◌>>◌
  rewind-At es f content entries readable small = (
    refl,
    record {
      content = content;
      cursor = refl;
      entries = entries;
      readable = readable;
      small = small;
    },
  )

  -- Behind an entry, a seek of 32 bytes back leads to its first byte.
  pub seek_back :
      (done : List ℕ) (e : DirEntry) (rest : List DirEntry) (f : File V)
      → IsEntry e
      → At (done ++ entry_bytes e) rest f
      → seek ops (SeekFrom.current (negsuc 31)) f ≡ (ok (length done), move_to (length done) f)
  seek_back done e rest f entry at =
      let size = At-size (done ++ entry_bytes e) rest f at in
      let (p, seeks, target) =
        seek-IsTarget ops (SeekFrom.current (negsuc 31)) f
          (omega (arith, laws.len_lem f.vnode, at.small)) (omega (arith, at.cursor, at.small))
          (omega arith) in
      let there : p ≡ length done = omega (
        arith,
        target,
        at.cursor,
        length-append done (entry_bytes e),
        length-entry_bytes e entry,
      ) in
      seeks ∙ ap (λ q. (ok q, move_to q f)) there

  -- At an entry, another is written in its place.
  pub write_from-entry :
      (done : List ℕ) (e new : DirEntry) (rest : List DirEntry) (f : File V)
      → IsEntry new
      → At done (e ∷ rest) f
      → Writable f.vnode
      → (after : File V) × (write_from ops new f ≡ (ok tt, after))
        × At (done ++ entry_bytes new) rest after
        × Writable after.vnode
  unfolding write_from
  write_from-entry done e new rest f entry at w =
      let size = At-size done (e ∷ rest) f at in
      let e_size = length-entry_bytes e at.entries.0 in
      let new_size = length-entry_bytes new entry in
      let (after, writes, x) =
        write_all-fits ops bytes Readable Writable laws (entry_bytes new) f w
          (omega (arith, at.cursor, new_size)) (omega (arith, at.small)) in
      let all_behind : List ℕ = dir_bytes (e ∷ rest) in
      let front : take f.cursor (contents bytes f) ≡ done =
        ap (λ l. take f.cursor l) at.content
        ∙ ap (λ n. take n (done ++ all_behind)) at.cursor
        ∙ take-append_exact done all_behind in
      let past : length (done ++ entry_bytes e) ≡ f.cursor + length (entry_bytes new) =
        omega (arith, at.cursor, e_size, new_size, length-append done (entry_bytes e)) in
      let back : drop (f.cursor + length (entry_bytes new)) (contents bytes f) ≡ dir_bytes rest =
        ap (λ l. drop (f.cursor + length (entry_bytes new)) l)
          (at.content ∙ append_assoc done (entry_bytes e) (dir_bytes rest))
        ∙ subst (λ n. drop n ((done ++ entry_bytes e) ++ dir_bytes rest) ≡ dir_bytes rest) past
            (drop-append_exact (done ++ entry_bytes e) (dir_bytes rest)) in
      let content : contents bytes after ≡ (done ++ entry_bytes new) ++ dir_bytes rest =
        x.written
        ∙ ap
            (λ l.
              l
              ++ (entry_bytes new ++ drop (f.cursor + length (entry_bytes new)) (contents bytes f)))
            front
        ∙ ap (λ l. done ++ (entry_bytes new ++ l)) back
        ∙ append_assoc done (entry_bytes new) (dir_bytes rest) in
      (
        after,
        writes,
        record {
          content = content;
          cursor = omega (arith, x.cursor, at.cursor, length-append done (entry_bytes new));
          entries = at.entries.1;
          readable = laws.readable after.vnode x.still;
          small = omega (
            arith,
            at.small,
            size,
            ap length content,
            length-append (done ++ entry_bytes new) (dir_bytes rest),
            length-append done (entry_bytes new),
            length-dir_bytes rest at.entries.1,
            new_size,
          );
        },
        x.still,
      )
