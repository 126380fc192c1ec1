-- ===== src/Disk/Directory/Slots.antt =====
-- `first_invalid` of dir.rs, and the list of entries with a new one in the slot that it finds.
use tacos.Prelude.{
  length-replicate, length-append, ℕ, zero, suc, ◌+◌, ◌-◌, ◌<◌, ◌≡◌, refl, sym, ap, ◌∙◌, ◌⊎◌, true,
  false, Option, none, some, List, [], ◌∷◌, ◌++◌, length, arith, inl, inr, Bool-cases,
  if◌then◌else◌,
}
use tacos.Prelude.Int.{negsuc}
use tacos.Prelude.Outcome.{Outcome, ok, err, panic, OsError, Exec}
use tacos.Prelude.Run.{bind-ok}
use tacos.Files.Vnode.{Vnode, IsVnode}
use tacos.Files.File.{File, SeekFrom, seek, move_to}
use tacos.Disk.Directory.{
  file_name_len_max, replicate, none, Option, List, ℕ, Vnode, DirEntry, is_valid, entry_bytes,
  unwrap, stop_invalid, seek_invalid,
}
use tacos.Disk.Directory.Changes.{rewound}
use tacos.Disk.Directory.Entries.{IsEntry, dir_bytes, append_assoc}
use tacos.Disk.Directory.Walking.{At, read_into-entry, read_into-end, seek_back}

-- The entries with a new one in place of the first that is invalid.
abbrev pub put_first : DirEntry → List DirEntry → Option (List DirEntry)
put_first new [] = none
put_first new (e ∷ es) =
    let rest = put_first new es in
    if is_valid e then (elim rest [ none ↦ none | some put ↦ some (e ∷ put) ]) else some (new ∷ es)

abbrev pub inserted_or_full : Option (List DirEntry) → Outcome (Unit {0})
inserted_or_full none = err OsError.root_dir_full
inserted_or_full (some put) = ok tt

-- The entries that are there afterwards.
abbrev pub put_or_same : List DirEntry → Option (List DirEntry) → List DirEntry
put_or_same es none = es
put_or_same es (some put) = put

-- The entry of a path.
abbrev pub entry_for : List ℕ → ℕ → DirEntry
entry_for path inum = record {
  name = path ++ replicate (file_name_len_max - length path) 0;
  inum = inum;
}

pub entry_for-IsEntry :
    (path : List ℕ) (inum : ℕ)
    → length path < 28
    → inum < 4294967296
    → IsEntry (entry_for path inum)
entry_for-IsEntry path inum short fits = record {
  name_size = omega (
    arith,
    length-append path (replicate (file_name_len_max - length path) 0),
    length-replicate {A = ℕ} (file_name_len_max - length path) 0,
  );
  inum_fits = fits;
}

pub put_first-valid :
    (new e : DirEntry) (rest : List DirEntry) (o : Option (List DirEntry))
    → is_valid e ≡ true
    → put_first new rest ≡ o
    → put_first new (e ∷ rest) ≡ elim o [ none ↦ none | some put ↦ some (e ∷ put) ]
put_first-valid new e rest o valid h = rw (valid, h) refl

pub put_first-slot :
    (new e : DirEntry) (rest : List DirEntry)
    → is_valid e ≡ false
    → put_first new (e ∷ rest) ≡ some (new ∷ rest)
put_first-slot new e rest invalid = rw invalid refl

module _ {V : Type 0} (ops : Vnode V) (bytes : V → List ℕ) (Readable Writable : V → Type 0)
    (laws : IsVnode ops bytes Readable Writable) where
  abbrev pub InDir : List ℕ → List DirEntry → File V → Type 0
  InDir = At ops bytes Readable Writable laws

  -- The first invalid entry is found, and the cursor stands at it.
  pub record Stopped (fuel : ℕ) (done : List ℕ) (rest : List DirEntry) (f : File V) : Type 0 where
    pub before : List ℕ
    pub slot : DirEntry
    pub behind : List DirEntry
    pub after : File V
    pub finds : seek_invalid ops fuel f ≡ (ok (length before), after)
    pub at : InDir before (slot ∷ behind) after
    pub still : after.vnode ≡ f.vnode
    pub puts :
        (new : DirEntry)
        → (put : List DirEntry) × (put_first new rest ≡ some put)
          × ((before ++ entry_bytes new) ++ dir_bytes behind ≡ done ++ dir_bytes put)

  pub record Full (fuel : ℕ) (rest : List DirEntry) (f : File V) : Type 0 where
    pub after : File V
    pub misses : seek_invalid ops fuel f ≡ (err OsError.root_dir_full, after)
    pub still : after.vnode ≡ f.vnode
    pub puts : (new : DirEntry) → put_first new rest ≡ none

  stop_invalid-valid :
      (e : DirEntry) (next : Exec (File V) ℕ) → is_valid e ≡ true → stop_invalid ops e next ≡ next
  unfolding stop_invalid
  stop_invalid-valid e next valid = rw (valid, stop_invalid) refl

  pub stop_invalid-slot :
      (e : DirEntry) (next : Exec (File V) ℕ)
      → is_valid e ≡ false
      → stop_invalid ops e next ≡ unwrap (seek ops (SeekFrom.current (negsuc 31)))
  unfolding stop_invalid
  stop_invalid-slot e next invalid = rw (invalid, stop_invalid) refl

  pub unwrap-ok :
      {S A : Type 0} (m : Exec S A) {s s' : S} {a : A} → m s ≡ (ok a, s') → unwrap m s ≡ (ok a, s')
  unfolding unwrap
  unwrap-ok m e =
      ap (λ r. elim r.0 [ ok a ↦ (ok a, r.1) | err e ↦ (panic, r.1) | panic ↦ (panic, r.1) ]) e

  pub seek_invalid-entry :
      (fuel : ℕ) (done : List ℕ) (e : DirEntry) (rest : List DirEntry) (f : File V)
      → InDir done (e ∷ rest) f
      → seek_invalid ops (suc fuel) f
        ≡ stop_invalid ops e (seek_invalid ops fuel) (move_to (f.cursor + 32) f)
  unfolding seek_invalid
  seek_invalid-entry fuel done e rest f at =
      let (reads, _) = read_into-entry ops bytes Readable Writable laws done e rest f at in
      bind-ok _ _ reads refl

  pub seek_invalid-end :
      (fuel : ℕ) (done : List ℕ) (f : File V)
      → InDir done [] f
      → seek_invalid ops (suc fuel) f ≡ (err OsError.root_dir_full, f)
  unfolding seek_invalid
  seek_invalid-end fuel done f at =
      bind-ok _ _ (read_into-end ops bytes Readable Writable laws done f at) refl

  pub seek_invalid-Stopped :
      (fuel : ℕ) (done : List ℕ) (rest : List DirEntry) (f : File V)
      → length rest < fuel
      → InDir done rest f
      → Stopped fuel done rest f ⊎ Full fuel rest f
  seek_invalid-Stopped zero done rest f h at = absurd (omega arith)
  seek_invalid-Stopped (suc fuel) done [] f h at = inr (record {
    after = f;
    misses = seek_invalid-end fuel done f at;
    still = refl;
    puts = λ new. refl;
  })
  seek_invalid-Stopped (suc fuel) done (e ∷ rest) f h at =
      let (_, here) = read_into-entry ops bytes Readable Writable laws done e rest f at in
      let next = move_to (f.cursor + 32) f in
      let rounds_behind = seek_invalid ops fuel in
      let step = seek_invalid-entry fuel done e rest f at in
      elim (Bool-cases (is_valid e)) [
        | inr invalid ↦ inl (record {
          before = done;
          slot = e;
          behind = rest;
          after = move_to (length done) next;
          finds =
              step
              ∙ ap (λ m. m next) (stop_invalid-slot e rounds_behind invalid)
              ∙ unwrap-ok _
                  (seek_back ops bytes Readable Writable laws done e rest next at.entries.0 here);
          at = rewound ops bytes Readable Writable laws done e rest next at.entries.0 here;
          still = refl;
          puts = λ new. (
            new ∷ rest,
            put_first-slot new e rest invalid,
            sym (append_assoc done (entry_bytes new) (dir_bytes rest)),
          );
        })
        | inl valid ↦
            let passes = step ∙ ap (λ m. m next) (stop_invalid-valid e rounds_behind valid) in
            elim (seek_invalid-Stopped fuel (done ++ entry_bytes e) rest next (omega arith) here) [
              | inl x ↦ inl (record {
                before = x.before;
                slot = x.slot;
                behind = x.behind;
                after = x.after;
                finds = passes ∙ x.finds;
                at = x.at;
                still = x.still;
                puts = λ new.
                    let (put, is_put, joined) = x.puts new in
                    (
                      e ∷ put,
                      put_first-valid new e rest (some put) valid is_put,
                      joined ∙ sym (append_assoc done (entry_bytes e) (dir_bytes put)),
                    );
              })
              | inr x ↦ inr (record {
                after = x.after;
                misses = passes ∙ x.misses;
                still = x.still;
                puts = λ new. put_first-valid new e rest none valid (x.puts new);
              })
            ]
      ]
