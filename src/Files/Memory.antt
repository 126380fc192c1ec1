-- ===== src/Files/Memory.antt =====
-- src/fs/inmem.rs: the vnode of a file in memory, which is the boxed buffer. `address` is the address
-- of a buffer, which the allocator chooses.
pub mod Laws
use tacos.Prelude.{
  ℕ, ◌+◌, ◌-◌, ◌≤◌, ◌<◌, ◌≡◌, refl, sym, ap, Bool, true, false, inl, inr, List, [], ◌∷◌, ◌++◌,
  length, take, drop, min, leb, if◌then◌else◌, arith,
}
use tacos.Prelude.Outcome.{Outcome, ok, OsError, Exec, pure, crash}
use tacos.Files.Vnode.{Vnode, IsVnode, splice}
use tacos.Files.File.{File, new}

unfoldable pub read_at : List ℕ → ℕ → Exec (List ℕ) (ℕ × List ℕ)
read_at buf off lock =
    if leb (length lock) off
    then (Outcome.err OsError.unexpected_eof, lock)
    else (let n = min (length lock - off) (length buf) in
        (ok (n, take n (drop off lock) ++ drop n buf), lock))

unfoldable pub write_at : List ℕ → ℕ → Exec (List ℕ) ℕ
write_at buf off lock =
    if leb (length lock) off
    then (Outcome.err OsError.unexpected_eof, lock)
    else (let n = min (length lock - off) (length buf) in
        (ok n, take off lock ++ (take n buf ++ drop (off + n) lock)))

-- `resize` is `unimplemented!`.
module _ (address : List ℕ → ℕ) where
  unfoldable pub memory_inode : Vnode (List ℕ)
  unfolding read_at write_at
  memory_inode = record {
    read_at = read_at;
    write_at = write_at;
    deny_write = pure tt;
    allow_write = pure tt;
    inum = address;
    len = λ v. length v;
    resize = λ size. crash;
  }

-- `MemFs::open`, but for the table of weak references, which nothing reads.
abbrev pub open_buffer : List ℕ → Exec Unit (File (List ℕ))
open_buffer id = pure (new id)
