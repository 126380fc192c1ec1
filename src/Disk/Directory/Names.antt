-- ===== src/Disk/Directory/Names.antt =====
-- What `path2inum` finds after `insert` and after `remove` of dir.rs.
use tacos.Prelude.{
  get_or-set_self, ℕ, suc, ◌-◌, ◌<◌, ◌≡◌, refl, sym, ap, ◌∙◌, not, ◌&&◌, get_or-set_self, get_or,
  replicate, true, false, some, List, [], ◌∷◌, ◌++◌, length, arith, if◌then◌else◌, ◌==◌,
}
use tacos.Disk.Directory.{
  le_bytes, not, get_or, replicate, DirEntry, is_valid, invalidate, entry_bytes, c_str, same_bytes,
  is_ascii, file_name_len_max, deleted_mark,
}
use tacos.Disk.Directory.Entries.{IsEntry, append_assoc}
use tacos.Disk.Directory.Lookup.{has_name, find_inum, has_name-valid}
use tacos.Disk.Directory.Slots.{entry_for}

-- No byte is 0.
abbrev pub NoZero : List ℕ → Type 0
NoZero [] = Unit
NoZero (b ∷ bs) = ((b == 0) ≡ false) × NoZero bs

-- A path that can be found again: ASCII, of 1 to 27 bytes, none of them 0, and not beginning with the
-- mark of a deleted entry.
pub record IsPlain (path : List ℕ) : Type 0 where
  pub ascii : is_ascii path ≡ true
  pub some_byte : 0 < length path
  pub short : length path < file_name_len_max
  pub unmarked : (get_or path 0 0 == deleted_mark) ≡ false
  pub no_zero : NoZero path

pub same_bytes_self : (l : List ℕ) → same_bytes l l ≡ true
unfolding same_bytes
same_bytes_self [] = refl
same_bytes_self (b ∷ bs) =
    let here : (b == b) ≡ true = ground arith in rw (here, same_bytes_self bs) refl

pub c_str-append : (path rest : List ℕ) → NoZero path → c_str (path ++ (0 ∷ rest)) ≡ some path
unfolding c_str
c_str-append [] rest h = refl
c_str-append (b ∷ bs) rest h = rw (h.0, c_str-append bs rest h.1) refl

-- The name in an entry is the path it was made for.
pub c_str-entry_for :
    (path : List ℕ) (inum : ℕ)
    → IsPlain path
    → c_str (entry_bytes (entry_for path inum)) ≡ some path
unfolding entry_bytes
c_str-entry_for path inum plain =
    let zeros : List ℕ = replicate (27 - length path) 0 in
    let room : file_name_len_max - length path ≡ suc (27 - length path) =
      omega (arith, plain.short) in
    ap (λ n. c_str ((path ++ replicate n 0) ++ le_bytes 4 inum)) room
    ∙ ap c_str (sym (append_assoc path (0 ∷ zeros) (le_bytes 4 inum)))
    ∙ c_str-append path (zeros ++ le_bytes 4 inum) plain.no_zero

get_or-append : (xs ys : List ℕ) → 0 < length xs → get_or (xs ++ ys) 0 0 ≡ get_or xs 0 0
get_or-append [] ys h = absurd (omega arith)
get_or-append (x ∷ xs) ys h = refl

first_not_zero : (path : List ℕ) → 0 < length path → NoZero path → (get_or path 0 0 == 0) ≡ false
first_not_zero [] h z = absurd (omega arith)
first_not_zero (b ∷ bs) h z = z.0

entry_for-is_valid :
    (path : List ℕ) (inum : ℕ) → IsPlain path → is_valid (entry_for path inum) ≡ true
unfolding is_valid
entry_for-is_valid path inum plain =
    let first =
      get_or-append path (replicate (file_name_len_max - length path) 0) plain.some_byte in
    ap (λ b. not (b == 35) && not (b == 0)) first
    ∙ ap (λ t. not t && not (get_or path 0 0 == 0)) plain.unmarked
    ∙ ap (λ t. not t) (first_not_zero path plain.some_byte plain.no_zero)

pub entry_for-has_name :
    (path : List ℕ) (inum : ℕ) → IsPlain path → has_name path (entry_for path inum) ≡ true
entry_for-has_name path inum plain =
    has_name-valid path path (entry_for path inum) (entry_for-is_valid path inum plain)
      (c_str-entry_for path inum plain)
    ∙ same_bytes_self path

pub invalidate-is_valid : (e : DirEntry) → IsEntry e → is_valid (invalidate e) ≡ false
unfolding is_valid
invalidate-is_valid e h =
    let first = get_or-set_self e.name 0 35 0 (omega (arith, h.name_size)) in
    ap (λ b. not (b == 35) && not (b == 0)) first

pub find_inum-other :
    (path : List ℕ) (e : DirEntry) (es : List DirEntry)
    → has_name path e ≡ false
    → find_inum path (e ∷ es) ≡ find_inum path es
find_inum-other path e es other = ap (λ b. if b then some e.inum else find_inum path es) other

pub find_inum-first :
    (path : List ℕ) (e : DirEntry) (es : List DirEntry)
    → has_name path e ≡ true
    → find_inum path (e ∷ es) ≡ some e.inum
find_inum-first path e es named = ap (λ b. if b then some e.inum else find_inum path es) named
