-- ===== src/Disk/Directory/Naming.antt =====
-- `path2inum` of dir.rs against what it is for a path to be the name of an entry.
use tacos.Prelude.{
  ℕ, ◌<◌, ◌≡◌, ◌≢◌, refl, sym, ap, ◌∙◌, subst, Bool, true, Option, none, some, Option-cases, List,
  [], ◌∷◌, ◌++◌, length, get_or, arith, inl, inr, Bool-cases, ◌==◌,
}
use tacos.Files.Vnode.{Vnode, IsVnode}
use tacos.Files.File.{File, isize_bound}
use tacos.Files.File.Laws.{contents}
use tacos.Disk.Directory.{DirEntry, is_valid, c_str, same_bytes, entry_bytes, path2inum}
use tacos.Disk.Directory.Entries.{AllEntries, dir_bytes}
use tacos.Disk.Directory.Lookup.{
  has_name, find_inum, found_or_missing, has_name-deleted, has_name-valid, AllNamed,
  path2inum-find_inum,
}
use tacos.Disk.Directory.Names.{
  NoZero, same_bytes_self, c_str-append, find_inum-other, find_inum-first,
}

-- The entry is in use, and the path is what its bytes have in front of their first 0.
pub record Names (path : List ℕ) (e : DirEntry) : Type 0 where
  pub in_use : get_or e.name 0 0 ≢ 0
  pub not_deleted : get_or e.name 0 0 ≢ 35
  pub behind : List ℕ
  pub in_front : entry_bytes e ≡ path ++ (0 ∷ behind)
  pub no_zero : NoZero path

-- The number of the first entry with that name.
pub data FirstNamed (path : List ℕ) : List DirEntry → Option ℕ → Type 0 where
  nowhere : FirstNamed path [] none
  here : {e : DirEntry} {es : List DirEntry} → Names path e → FirstNamed path (e ∷ es) (some e.inum)
  later :
      {e : DirEntry} {es : List DirEntry} {found : Option ℕ}
      → ¬ Names path e
      → FirstNamed path es found
      → FirstNamed path (e ∷ es) found

same_bytes-eq : (xs ys : List ℕ) → same_bytes xs ys ≡ true → xs ≡ ys
unfolding same_bytes
same_bytes-eq [] [] h = refl
same_bytes-eq [] (y ∷ ys) h = cc
same_bytes-eq (x ∷ xs) [] h = cc
same_bytes-eq (x ∷ xs) (y ∷ ys) h =
    let first : x ≡ y = ground arith in
    let rest : same_bytes xs ys ≡ true = ground arith in cc (first, same_bytes-eq xs ys rest)

-- What `c_str` answers stands in front of a 0, and has none itself.
c_str-front :
    (l text : List ℕ)
    → c_str l ≡ some text
    → NoZero text × (behind : List ℕ) × (l ≡ text ++ (0 ∷ behind))
unfolding c_str
c_str-front [] text h = cc
c_str-front (b ∷ bs) text h = elim (Bool-cases (b == 0)) [
  | inl zero_here ↦
      let is_zero : b ≡ 0 = ground arith in
      let empty : [] ≡ text = grind (arith, zero_here, h) in
      subst (λ t. NoZero t × (behind : List ℕ) × (b ∷ bs ≡ t ++ (0 ∷ behind))) empty
        (tt, bs, ap (λ n. n ∷ bs) is_zero)
  | inr more ↦ elim (Option-cases (c_str bs)) [
    | inl unended ↦ absurd (grind (arith, more, unended, h))
    | inr (name, ends) ↦
        let (clean, behind, split) = c_str-front bs name ends in
        let same : b ∷ name ≡ text = grind (arith, more, ends, h) in
        subst (λ t. NoZero t × (behind : List ℕ) × (b ∷ bs ≡ t ++ (0 ∷ behind))) same
          ((more, clean), behind, ap (λ l. b ∷ l) split)
  ]
]

has_name-Names : (path : List ℕ) (e : DirEntry) → has_name path e ≡ true → Names path e
unfolding is_valid
has_name-Names path e h = elim (Bool-cases (is_valid e)) [
  | inr deleted ↦ absurd (cc (has_name-deleted path e deleted, h))
  | inl valid ↦ elim (Option-cases (c_str (entry_bytes e))) [
    | inl unended ↦ absurd (grind (arith, valid, unended, h))
    | inr (text, ends) ↦
        let (clean, behind, split) = c_str-front (entry_bytes e) text ends in
        let same : text ≡ path =
          sym (same_bytes-eq path text (sym (has_name-valid path text e valid ends) ∙ h)) in
        record {
          in_use = λ z. ground arith;
          not_deleted = λ z. ground arith;
          behind = behind;
          in_front = split ∙ ap (λ t. t ++ (0 ∷ behind)) same;
          no_zero = subst NoZero same clean;
        }
  ]
]

Names-has_name : (path : List ℕ) (e : DirEntry) → Names path e → has_name path e ≡ true
unfolding is_valid
Names-has_name path e n =
    let valid : is_valid e ≡ true = ground (arith, n.in_use, n.not_deleted) in
    has_name-valid path path e valid (ap c_str n.in_front ∙ c_str-append path n.behind n.no_zero)
    ∙ same_bytes_self path

find_inum-FirstNamed : (path : List ℕ) (es : List DirEntry) → FirstNamed path es (find_inum path es)
find_inum-FirstNamed path [] = nowhere
find_inum-FirstNamed path (e ∷ es) = elim (Bool-cases (has_name path e)) [
  | inl named ↦
      subst (FirstNamed path (e ∷ es)) (sym (find_inum-first path e es named))
        (here (has_name-Names path e named))
  | inr other ↦
      subst (FirstNamed path (e ∷ es)) (sym (find_inum-other path e es other))
        (later (λ n. cc (Names-has_name path e n, other)) (find_inum-FirstNamed path es))
]

module _ (is_utf8 : List ℕ → Bool) {V : Type 0} (ops : Vnode V) (bytes : V → List ℕ)
    (Readable Writable : V → Type 0) (laws : IsVnode ops bytes Readable Writable) where
  -- On a readable directory of fewer than 2 ^ 63 bytes, whose valid entries have names that end within
  -- them and are UTF-8, `path2inum` answers the number of the first entry whose name is the path, and
  -- that there is no such file where there is none; it does not change the directory. The path is the
  -- name of an entry whose first byte is neither 0 nor '#' and whose bytes begin with those of the
  -- path, none of them 0, and a 0.
  pub path2inum-FirstNamed :
      (path : List ℕ) (es : List DirEntry) (f : File V)
      → contents bytes f ≡ dir_bytes es
      → AllEntries es
      → AllNamed is_utf8 es
      → Readable f.vnode
      → length (contents bytes f) < isize_bound
      → (found : Option ℕ) × FirstNamed path es found
        × (after : File V) × (path2inum ops is_utf8 path f ≡ (found_or_missing found, after))
        × (after.vnode ≡ f.vnode)
  path2inum-FirstNamed path es f content entries named readable small =
      let (after, runs, same) =
        path2inum-find_inum is_utf8 ops bytes Readable Writable laws path es f content entries named
          readable small in
      (find_inum path es, find_inum-FirstNamed path es, after, runs, same)
