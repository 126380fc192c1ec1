-- ===== src/Files/File/Position.antt =====
-- `seek` of a file, and reading back what has been written.
use tacos.Prelude.{
  ℕ, suc, ◌+◌, ◌-◌, ◌≤◌, ◌<◌, ◌≡◌, refl, ap, ◌∙◌, List, ◌++◌, length, take, drop, arith,
  length-take, length-drop, length-append, take-append_exact, drop-append_exact, subst,
}
use tacos.Prelude.Int.{ℤ, pos, negsuc}
use tacos.Prelude.Outcome.{ok}
use tacos.Prelude.Run.{◌>>=◌, ◌>>◌, bind-ok, then-ok}
use tacos.Files.Vnode.{Vnode, IsVnode, splice}
use tacos.Files.File.{
  File, SeekFrom, move_to, usize_mod, isize_bound, as_isize, ◌+ℤ◌, checked, read_exact, write_all,
  seek, stream_position,
}
use tacos.Files.File.Laws.{contents, write_all-fits, read_exact-fits}

-- Where a signed offset from `base` leads: no further back than the beginning.
abbrev pub IsOffset : ℕ → ℤ → ℕ → Type 0
IsOffset base (pos n) p = p ≡ base + n
IsOffset base (negsuc n) p = p ≡ base - suc n

-- The position that a `seek` asks for, in a file of length `len` with its cursor at `cursor`.
abbrev pub IsTarget : ℕ → ℕ → SeekFrom → ℕ → Type 0
IsTarget len cursor (SeekFrom.start u) p = p ≡ u
IsTarget len cursor (SeekFrom.end_ i) p = IsOffset len i p
IsTarget len cursor (SeekFrom.current i) p = IsOffset cursor i p

-- A seek whose offset and target are below `isize::MAX`.
abbrev pub Fits : ℕ → ℕ → SeekFrom → Type 0
Fits len cursor (SeekFrom.start u) = Unit
Fits len cursor (SeekFrom.end_ (pos n)) = len + n < isize_bound
Fits len cursor (SeekFrom.end_ (negsuc n)) = n < isize_bound
Fits len cursor (SeekFrom.current (pos n)) = cursor + n < isize_bound
Fits len cursor (SeekFrom.current (negsuc n)) = n < isize_bound

forth :
    (base n : ℕ)
    → base < isize_bound
    → base + n < isize_bound
    → checked (as_isize base +ℤ pos n) ≡ ok (base + n)
forth base n fits sum = ground arith

back :
    (base n : ℕ)
    → base < isize_bound
    → n < isize_bound
    → checked (as_isize base +ℤ negsuc n) ≡ ok (base - suc n)
back base n fits h = ground arith

wrapped :
    (base : ℕ) → isize_bound ≤ base → base < usize_mod → checked (as_isize base +ℤ pos 0) ≡ ok 0
wrapped base h fits = ground arith

splice-length :
    (bytes new : List ℕ) (off : ℕ)
    → off + length new ≤ length bytes
    → length (splice bytes off new) ≡ length bytes
splice-length bytes new off h = omega (
  arith,
  length-append (take off bytes) (new ++ drop (off + length new) bytes),
  length-append new (drop (off + length new) bytes),
  length-take off bytes,
  length-drop (off + length new) bytes,
)

splice-read :
    (bytes new : List ℕ) (off : ℕ)
    → off ≤ length bytes
    → take (length new) (drop off (splice bytes off new)) ≡ new
splice-read bytes new off h =
    let tail : List ℕ = new ++ drop (off + length new) bytes in
    let size : length (take off bytes) ≡ off = omega (arith, length-take off bytes) in
    let behind : drop off (take off bytes ++ tail) ≡ tail =
      subst (λ n. drop n (take off bytes ++ tail) ≡ tail) size
        (drop-append_exact (take off bytes) tail) in
    ap (take (length new)) behind ∙ take-append_exact new (drop (off + length new) bytes)

module _ {V : Type 0} (ops : Vnode V) where
  -- In a file whose length and cursor are below 2 ^ 63, a `seek` whose offset and target fit in
  -- `isize` moves the cursor to its target, and answers it; an offset that leads back past the
  -- beginning leads to the beginning.
  pub seek-IsTarget :
      (from : SeekFrom) (f : File V)
      → ops.len f.vnode < isize_bound
      → f.cursor < isize_bound
      → Fits (ops.len f.vnode) f.cursor from
      → (p : ℕ) × (seek ops from f ≡ (ok p, move_to p f))
        × IsTarget (ops.len f.vnode) f.cursor from p
  unfolding seek
  seek-IsTarget (SeekFrom.start u) f h l fits = (u, refl, refl)
  seek-IsTarget (SeekFrom.end_ (pos n)) f h l fits =
      (ops.len f.vnode + n, rw (forth (ops.len f.vnode) n h fits, seek) refl, refl)
  seek-IsTarget (SeekFrom.end_ (negsuc n)) f h l fits =
      (ops.len f.vnode - suc n, rw (back (ops.len f.vnode) n h fits, seek) refl, refl)
  seek-IsTarget (SeekFrom.current (pos n)) f h l fits =
      (f.cursor + n, rw (forth f.cursor n l fits, seek) refl, refl)
  seek-IsTarget (SeekFrom.current (negsuc n)) f h l fits =
      (f.cursor - suc n, rw (back f.cursor n l fits, seek) refl, refl)

  -- From 2 ^ 63 on, the cast of the cursor to `isize` is negative: `stream_position`, which asks for
  -- the position, answers 0 and moves the cursor there.
  stream_position-wraps :
      (f : File V)
      → isize_bound ≤ f.cursor
      → f.cursor < usize_mod
      → stream_position ops f ≡ (ok 0, move_to 0 f)
  unfolding stream_position seek
  stream_position-wraps f h fits = rw (wrapped f.cursor h fits, stream_position, seek) refl

  module _ (bytes : V → List ℕ) (Readable Writable : V → Type 0)
      (laws : IsVnode ops bytes Readable Writable) where
    -- What `write_all` has written where it fits in a writable file, `seek` to the old position and
    -- `read_exact` into a buffer of its length read back.
    pub read_exact-write_all :
        (new buf : List ℕ) (f : File V)
        → Writable f.vnode
        → length buf ≡ length new
        → f.cursor + length new ≤ length (contents bytes f)
        → length (contents bytes f) < usize_mod
        → (after : File V) × ((write_all ops new >> seek ops (SeekFrom.start f.cursor) >>= λ _.
                read_exact ops buf)
              f
            ≡ (ok new, after))
          × (contents bytes after ≡ splice (contents bytes f) f.cursor new)
    unfolding seek
    read_exact-write_all new buf f w same h fits =
        let (mid, writes, x) = write_all-fits ops bytes Readable Writable laws new f w h fits in
        let start : File V = move_to f.cursor mid in
        let size : length (contents bytes mid) ≡ length (contents bytes f) =
          ap length x.written ∙ splice-length (contents bytes f) new f.cursor h in
        let read_back : take (length buf) (drop f.cursor (contents bytes mid)) ≡ new =
          ap (λ n. take n (drop f.cursor (contents bytes mid))) same
          ∙ ap (λ l. take (length new) (drop f.cursor l)) x.written
          ∙ splice-read (contents bytes f) new f.cursor (omega arith) in
        (
          move_to (f.cursor + length buf) start,
          then-ok _ _ writes (
              bind-ok _ _ refl (
                read_exact-fits ops bytes Readable Writable laws buf start
                  (laws.readable mid.vnode x.still) (omega arith) (omega arith)
                ∙ ap (λ r. (ok r, move_to (f.cursor + length buf) start)) read_back)),
          x.written,
        )
