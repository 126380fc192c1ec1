-- ===== src/Disk/Directory/Lookup.antt =====
-- `path2inum` of dir.rs finds the first entry of that name.
use tacos.Prelude.{
  ℕ, zero, suc, ◌+◌, ◌<◌, ◌≡◌, refl, sym, ap, ◌∙◌, Bool, true, false, ◌&&◌, Option, none, some,
  List, [], ◌∷◌, ◌++◌, length, arith, inl, inr, Bool-cases, if◌then◌else◌,
}
use tacos.Prelude.Outcome.{Outcome, ok, err, OsError, Exec, pure}
use tacos.Prelude.Run.{bind-ok, then-ok}
use tacos.Files.Vnode.{Vnode, IsVnode}
use tacos.Files.File.{File, move_to, isize_bound}
use tacos.Files.File.Laws.{contents}
use tacos.Disk.Directory.{
  DirEntry, is_valid, c_str, same_bytes, entry_bytes, match_entry, search, rounds, path2inum,
}
use tacos.Disk.Directory.Entries.{AllEntries, dir_bytes, length-dir_bytes}
use tacos.Disk.Directory.Walking.{At, read_into-entry, read_into-end, rewind-At}

-- Whether an entry has this name.
abbrev pub has_name : List ℕ → DirEntry → Bool
has_name path e =
    is_valid e && elim (c_str (entry_bytes e)) [ none ↦ false | some name ↦ same_bytes path name ]

-- The number of the first entry with this name.
abbrev pub find_inum : List ℕ → List DirEntry → Option ℕ
find_inum path [] = none
find_inum path (e ∷ es) =
    let later = find_inum path es in if has_name path e then some e.inum else later

abbrev pub found_or_missing : Option ℕ → Outcome ℕ
found_or_missing none = err OsError.no_such_file
found_or_missing (some inum) = ok inum

pub has_name-deleted : (path : List ℕ) (e : DirEntry) → is_valid e ≡ false → has_name path e ≡ false
has_name-deleted path e deleted = rw deleted refl

pub has_name-valid :
    (path text : List ℕ) (e : DirEntry)
    → is_valid e ≡ true
    → c_str (entry_bytes e) ≡ some text
    → has_name path e ≡ same_bytes path text
has_name-valid path text e valid here = rw (valid, here) refl

module _ (is_utf8 : List ℕ → Bool) where
  -- A valid entry has a name, which ends within the entry and is UTF-8.
  pub record IsNamed (e : DirEntry) : Type 0 where
    pub name :
        is_valid e ≡ true
        → (text : List ℕ) × (c_str (entry_bytes e) ≡ some text) × (is_utf8 text ≡ true)

  abbrev pub AllNamed : List DirEntry → Type 0
  AllNamed [] = Unit
  AllNamed (e ∷ es) = IsNamed e × AllNamed es

  module _ {V : Type 0} (ops : Vnode V) (bytes : V → List ℕ) (Readable Writable : V → Type 0)
      (laws : IsVnode ops bytes Readable Writable) where
    abbrev InDir : List ℕ → List DirEntry → File V → Type 0
    InDir = At ops bytes Readable Writable laws

    match_entry-deleted :
        (path : List ℕ) (e : DirEntry) (next : Exec (File V) ℕ)
        → is_valid e ≡ false
        → match_entry ops is_utf8 path e next ≡ next
    unfolding match_entry
    match_entry-deleted path e next deleted = rw (deleted, match_entry) refl

    match_entry-named :
        (path text : List ℕ) (e : DirEntry) (next : Exec (File V) ℕ)
        → is_valid e ≡ true
        → c_str (entry_bytes e) ≡ some text
        → is_utf8 text ≡ true
        → match_entry ops is_utf8 path e next
          ≡ elim (same_bytes path text) as (λ b. Exec (File V) ℕ) [
            | true ↦ pure e.inum
            | false ↦ next
          ]
    unfolding match_entry
    match_entry-named path text e next valid here utf8 = rw (valid, match_entry, here, utf8) refl

    search-entry :
        (fuel : ℕ) (path done : List ℕ) (e : DirEntry) (rest : List DirEntry) (f : File V)
        → InDir done (e ∷ rest) f
        → search ops is_utf8 (suc fuel) path f
          ≡ match_entry ops is_utf8 path e
              (search ops is_utf8 fuel path)
              (move_to (f.cursor + 32) f)
    unfolding search
    search-entry fuel path done e rest f at =
        let (reads, _) = read_into-entry ops bytes Readable Writable laws done e rest f at in
        bind-ok _ _ reads refl

    search-end :
        (fuel : ℕ) (path done : List ℕ) (f : File V)
        → InDir done [] f
        → search ops is_utf8 (suc fuel) path f ≡ (err OsError.no_such_file, f)
    unfolding search
    search-end fuel path done f at =
        bind-ok _ _ (read_into-end ops bytes Readable Writable laws done f at) refl

    search-find :
        (fuel : ℕ) (path done : List ℕ) (rest : List DirEntry) (f : File V)
        → length rest < fuel
        → AllNamed rest
        → InDir done rest f
        → (after : File V) × (search ops is_utf8 fuel path f
            ≡ (found_or_missing (find_inum path rest), after))
          × (after.vnode ≡ f.vnode)
    search-find zero path done rest f h named at = absurd (omega arith)
    search-find (suc fuel) path done [] f h named at = (f, search-end fuel path done f at, refl)
    search-find (suc fuel) path done (e ∷ rest) f h named at =
        let (_, behind) = read_into-entry ops bytes Readable Writable laws done e rest f at in
        let next = move_to (f.cursor + 32) f in
        let (after, more, same) =
          search-find fuel path (done ++ entry_bytes e) rest next (omega arith) named.1 behind in
        let step = search-entry fuel path done e rest f at in
        let rounds_behind = search ops is_utf8 fuel path in
        elim (Bool-cases (is_valid e)) [
          | inr deleted ↦ (
            after,
            step
                ∙ ap (λ m. m next) (match_entry-deleted path e rounds_behind deleted)
                ∙ more
                ∙ ap
                    (λ b.
                      (found_or_missing (if b then some e.inum else find_inum path rest), after))
                    (sym (has_name-deleted path e deleted)),
            same,
          )
          | inl valid ↦
              let (text, here, utf8) = named.0.name valid in
              let named_step =
                ap (λ m. m next) (match_entry-named path text e rounds_behind valid here utf8) in
              let tested = has_name-valid path text e valid here in
              elim (Bool-cases (same_bytes path text)) [
                | inl equal ↦ (
                  next,
                  step
                      ∙ named_step
                      ∙ ap
                          (λ b.
                            (elim b as (λ b. Exec (File V) ℕ) [
                              | true ↦ pure e.inum
                              | false ↦ rounds_behind
                            ])
                              next)
                          equal
                      ∙ ap
                          (λ b. (
                            found_or_missing (if b then some e.inum else find_inum path rest),
                            next,
                          ))
                          (sym (tested ∙ equal)),
                  refl,
                )
                | inr other ↦ (
                  after,
                  step
                      ∙ named_step
                      ∙ ap
                          (λ b.
                            (elim b as (λ b. Exec (File V) ℕ) [
                              | true ↦ pure e.inum
                              | false ↦ rounds_behind
                            ])
                              next)
                          other
                      ∙ more
                      ∙ ap
                          (λ b. (
                            found_or_missing (if b then some e.inum else find_inum path rest),
                            after,
                          ))
                          (sym (tested ∙ other)),
                  same,
                )
              ]
        ]

    -- On a readable directory of at most 2 ^ 63 bytes, whose valid entries have names that end within
    -- them and are UTF-8, `path2inum` answers what looking the path up in the list of its entries
    -- answers, the number of the first entry with that name, or that there is no such file; it does
    -- not change the directory.
    pub path2inum-find_inum :
        (path : List ℕ) (es : List DirEntry) (f : File V)
        → contents bytes f ≡ dir_bytes es
        → AllEntries es
        → AllNamed es
        → Readable f.vnode
        → length (contents bytes f) < isize_bound
        → (after : File V) × (path2inum ops is_utf8 path f
            ≡ (found_or_missing (find_inum path es), after))
          × (after.vnode ≡ f.vnode)
    unfolding path2inum
    path2inum-find_inum path es f content entries named readable small =
        let (rewinds, at) =
          rewind-At ops bytes Readable Writable laws es f content entries readable small in
        let size : length es < rounds ops f =
          omega (arith, laws.len_lem f.vnode, ap length content, length-dir_bytes es entries) in
        let (after, runs, same) =
          search-find (rounds ops f) path [] es (move_to 0 f) size named at in
        (after, then-ok _ _ rewinds runs, same)
