-- ===== src/Disk/Directory/Finding.antt =====
-- `path2inum` after `insert` and after `remove` of dir.rs.
use tacos.Prelude.{
  Option-cases, subst, ℕ, suc, ◌*◌, ◌<◌, ◌≡◌, refl, sym, ap, ◌∙◌, Bool, true, false, Option, none,
  some, List, [], ◌∷◌, length, arith, inl, inr, Bool-cases, if◌then◌else◌, ◌==◌,
}
use tacos.Prelude.Outcome.{ok}
use tacos.Files.Vnode.{Vnode, IsVnode}
use tacos.Files.File.{File, isize_bound}
use tacos.Files.File.Laws.{contents}
use tacos.Disk.Directory.{DirEntry, is_valid, invalidate, insert, remove, path2inum}
use tacos.Disk.Directory.Entries.{AllEntries, dir_bytes, length-dir_bytes, invalidate-IsEntry}
use tacos.Disk.Directory.Lookup.{
  has_name, find_inum, found_or_missing, has_name-deleted, IsNamed, AllNamed, path2inum-find_inum,
}
use tacos.Disk.Directory.Changes.{clear_all, remove-clear_all}
use tacos.Disk.Directory.Slots.{
  put_first, put_or_same, inserted_or_full, entry_for, entry_for-IsEntry, put_first-slot,
  put_first-valid,
}
use tacos.Disk.Directory.Inserting.{insert-put_first}
use tacos.Disk.Directory.Names.{
  IsPlain, c_str-entry_for, entry_for-has_name, invalidate-is_valid, find_inum-other,
  find_inum-first,
}

-- The number of the first entry with this name and another number.
abbrev pub find_other : ℕ → List ℕ → List DirEntry → Option ℕ
find_other inum path [] = none
find_other inum path (e ∷ es) =
    let later = find_other inum path es in
    if e.inum == inum then later else if has_name path e then some e.inum else later

module _ (inum : ℕ) where
  clear_all-AllEntries : (es : List DirEntry) → AllEntries es → AllEntries (clear_all inum es)
  clear_all-AllEntries [] h = h
  clear_all-AllEntries (e ∷ es) h = elim (Bool-cases (e.inum == inum)) [
    | inl equal ↦ rw equal (invalidate-IsEntry e h.0, clear_all-AllEntries es h.1)
    | inr other ↦ rw other (h.0, clear_all-AllEntries es h.1)
  ]

  find_inum-clear_all :
      (path : List ℕ) (es : List DirEntry)
      → AllEntries es
      → find_inum path (clear_all inum es) ≡ find_other inum path es
  find_inum-clear_all path [] h = refl
  find_inum-clear_all path (e ∷ es) h =
      let later = find_inum-clear_all path es h.1 in
      elim (Bool-cases (e.inum == inum)) [
        | inl equal ↦ rw equal (
            find_inum-other path (invalidate e) (clear_all inum es)
              (has_name-deleted path (invalidate e) (invalidate-is_valid e h.0))
            ∙ later)
        | inr other ↦ rw (other, later) refl
      ]

  length-clear_all : (es : List DirEntry) → length (clear_all inum es) ≡ length es
  length-clear_all [] = refl
  length-clear_all (e ∷ es) = ap suc (length-clear_all es)

  module _ (is_utf8 : List ℕ → Bool) where
    clear_all-AllNamed :
        (es : List DirEntry)
        → AllEntries es
        → AllNamed is_utf8 es
        → AllNamed is_utf8 (clear_all inum es)
    clear_all-AllNamed [] h named = named
    clear_all-AllNamed (e ∷ es) h named = elim (Bool-cases (e.inum == inum)) [
      | inl equal ↦
          let gone = invalidate-is_valid e h.0 in
          let cleared : IsNamed is_utf8 (invalidate e) = record { name = λ valid. cc } in
          rw equal (cleared, clear_all-AllNamed es h.1 named.1)
      | inr other ↦ rw other (named.0, clear_all-AllNamed es h.1 named.1)
    ]

-- The second list is the first with a new entry in place of the first that is invalid.
data Put (new : DirEntry) : List DirEntry → List DirEntry → Type 0 where
  here : {e : DirEntry} {es : List DirEntry} → is_valid e ≡ false → Put new (e ∷ es) (new ∷ es)
  behind :
      {e : DirEntry} {es put : List DirEntry}
      → is_valid e ≡ true
      → Put new es put
      → Put new (e ∷ es) (e ∷ put)

put_first-Put :
    (new : DirEntry) (es put : List DirEntry) → put_first new es ≡ some put → Put new es put
put_first-Put new [] put e = cc
put_first-Put new (x ∷ es) put e = elim (Bool-cases (is_valid x)) [
  | inr invalid ↦
      let same : new ∷ es ≡ put = grind (arith, put_first-slot new x es invalid, e) in
      subst (Put new (x ∷ es)) same (here invalid)
  | inl valid ↦ elim (Option-cases (put_first new es)) [
    | inl full ↦ absurd (grind (arith, put_first-valid new x es none valid full, e))
    | inr (rest, later) ↦
        let same : x ∷ rest ≡ put =
          grind (arith, put_first-valid new x es (some rest) valid later, e) in
        subst (Put new (x ∷ es)) same (behind valid (put_first-Put new es rest later))
  ]
]

module _ (path : List ℕ) (inum : ℕ) (plain : IsPlain path) (fits : inum < 4294967296) where
  Put-AllEntries :
      {es put : List DirEntry} → Put (entry_for path inum) es put → AllEntries es → AllEntries put
  Put-AllEntries (here invalid) h = (entry_for-IsEntry path inum plain.short fits, h.1)
  Put-AllEntries (behind valid p) h = (h.0, Put-AllEntries p h.1)

  Put-find_inum :
      {es put : List DirEntry}
      → Put (entry_for path inum) es put
      → find_inum path es ≡ none
      → find_inum path put ≡ some inum
  Put-find_inum (here {e = e} {es = es} invalid) missing =
      find_inum-first path (entry_for path inum) es (entry_for-has_name path inum plain)
  Put-find_inum (behind {e = e} {es = es} {put = put} valid p) missing =
      elim (Bool-cases (has_name path e)) [
        | inl named ↦ absurd (grind (arith, find_inum-first path e es named, missing))
        | inr other ↦
            find_inum-other path e put other
            ∙ Put-find_inum p (sym (find_inum-other path e es other) ∙ missing)
      ]

  Put-AllNamed :
      (is_utf8 : List ℕ → Bool) {es put : List DirEntry}
      → is_utf8 path ≡ true
      → Put (entry_for path inum) es put
      → AllNamed is_utf8 es
      → AllNamed is_utf8 put
  Put-AllNamed is_utf8 utf8 (here invalid) h =
      (record { name = λ valid. (path, c_str-entry_for path inum plain, utf8) }, h.1)
  Put-AllNamed is_utf8 utf8 (behind valid p) h = (h.0, Put-AllNamed is_utf8 utf8 p h.1)

  Put-length : {es put : List DirEntry} → Put (entry_for path inum) es put → length put ≡ length es
  Put-length (here invalid) = refl
  Put-length (behind valid p) = ap suc (Put-length p)

module _ (is_utf8 : List ℕ → Bool) {V : Type 0} (ops : Vnode V) (bytes : V → List ℕ)
    (Readable Writable : V → Type 0) (laws : IsVnode ops bytes Readable Writable) where
  -- A directory of fewer than 2 ^ 63 bytes, whose entries are these.
  pub record IsDirectory (es : List DirEntry) (f : File V) : Type 0 where
    pub content : contents bytes f ≡ dir_bytes es
    pub entries : AllEntries es
    pub named : AllNamed is_utf8 es
    pub still : Writable f.vnode
    pub small : 32 * length es < isize_bound

  IsDirectory-small :
      (es : List DirEntry) (f : File V) → IsDirectory es f → length (contents bytes f) < isize_bound
  IsDirectory-small es f d =
      omega (arith, d.small, ap length d.content, length-dir_bytes es d.entries)

  -- In a directory that has no valid entry of that name and one at least that is invalid, `insert` of
  -- a plain path succeeds, and `path2inum` then finds the number that was inserted: an ASCII path of 1
  -- to 27 bytes, none of them 0, that does not begin with '#'.
  pub path2inum-insert :
      (path : List ℕ) (inum : ℕ) (es put : List DirEntry) (f : File V)
      → IsPlain path
      → is_utf8 path ≡ true
      → inum < 4294967296
      → IsDirectory es f
      → find_inum path es ≡ none
      → put_first (entry_for path inum) es ≡ some put
      → (mid after : File V) × (insert ops path inum f ≡ (ok tt, mid))
        × IsDirectory put mid
        × (path2inum ops is_utf8 path mid ≡ (ok inum, after))
  path2inum-insert path inum es put f plain utf8 fits d missing room =
      let is_put = put_first-Put (entry_for path inum) es put room in
      let (mid, inserts, x) =
        insert-put_first ops bytes Readable Writable laws path inum es f plain.ascii plain.short
          fits d.content d.entries d.still (IsDirectory-small es f d) in
      let dir : IsDirectory put mid = record {
        content = x.content ∙ ap (λ o. dir_bytes (put_or_same es o)) room;
        entries = Put-AllEntries path inum plain fits is_put d.entries;
        named = Put-AllNamed path inum plain fits is_utf8 utf8 is_put d.named;
        still = x.still;
        small = omega (arith, d.small, Put-length path inum plain fits is_put);
      } in
      let (after, finds, _) =
        path2inum-find_inum is_utf8 ops bytes Readable Writable laws path put mid dir.content
          dir.entries dir.named (laws.readable mid.vnode dir.still)
          (IsDirectory-small put mid dir) in
      (
        mid,
        after,
        inserts ∙ ap (λ o. (inserted_or_full o, mid)) room,
        dir,
        finds
            ∙ ap (λ o. (found_or_missing o, after))
                (Put-find_inum path inum plain fits is_put missing),
      )

  -- After `remove` of a number, which always succeeds, `path2inum` of any path answers the number of
  -- the first entry with that name and another number, so it never answers the one that was removed.
  pub path2inum-remove :
      (path : List ℕ) (inum : ℕ) (es : List DirEntry) (f : File V)
      → IsDirectory es f
      → (mid after : File V) × (remove ops inum f ≡ (ok tt, mid))
        × IsDirectory (clear_all inum es) mid
        × (path2inum ops is_utf8 path mid ≡ (found_or_missing (find_other inum path es), after))
  path2inum-remove path inum es f d =
      let (mid, removes, x) =
        remove-clear_all ops bytes Readable Writable laws inum es f d.content d.entries d.still
          (IsDirectory-small es f d) in
      let dir : IsDirectory (clear_all inum es) mid = record {
        content = x.content;
        entries = clear_all-AllEntries inum es d.entries;
        named = clear_all-AllNamed inum is_utf8 es d.entries d.named;
        still = x.still;
        small = omega (arith, d.small, length-clear_all inum es);
      } in
      let (after, finds, _) =
        path2inum-find_inum is_utf8 ops bytes Readable Writable laws path (clear_all inum es) mid
          dir.content dir.entries dir.named (laws.readable mid.vnode dir.still)
          (IsDirectory-small (clear_all inum es) mid dir) in
      (
        mid,
        after,
        removes,
        dir,
        finds ∙ ap (λ o. (found_or_missing o, after)) (find_inum-clear_all inum path es d.entries),
      )
