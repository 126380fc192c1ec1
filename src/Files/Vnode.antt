-- ===== src/Files/Vnode.antt =====
-- The trait `Vnode` of src/fs.rs: the operations that a file system gives to its files, and what the
-- files rely on. `close`, which no file calls, is left out.
use tacos.Prelude.{ℕ, ◌+◌, ◌-◌, ◌≤◌, ◌<◌, ◌≡◌, ◌⊎◌, List, ◌++◌, length, take, drop, min}
use tacos.Prelude.Outcome.{ok, err, OsError, Exec}

pub record Vnode (V : Type 0) : Type 0 where
  pub read_at : List ℕ → ℕ → Exec V (ℕ × List ℕ)
  pub write_at : List ℕ → ℕ → Exec V ℕ
  pub deny_write : Exec V Unit
  pub allow_write : Exec V Unit
  pub inum : V → ℕ
  pub len : V → ℕ
  pub resize : ℕ → Exec V Unit

-- The bytes `new` written over `bytes` from `off` on.
abbrev pub splice : List ℕ → ℕ → List ℕ → List ℕ
splice bytes off new = take off bytes ++ (new ++ drop (off + length new) bytes)

-- The contract of a vnode that holds `bytes`: where it can be read, a read within them copies as many
-- as there are and the buffer takes, and at their end it reads none or reports the end; where it can
-- be written, a write that fits in them replaces just the bytes that it covers.
pub record IsVnode {V : Type 0} (ops : Vnode V) (bytes : V → List ℕ)
    (Readable Writable : V → Type 0) : Type 0 where
  pub readable : (v : V) → Writable v → Readable v
  pub len_lem : (v : V) → ops.len v ≡ length (bytes v)
  pub read_within :
      (v : V) (buf : List ℕ) (off : ℕ)
      → Readable v
      → off < length (bytes v)
      → let n = min (length (bytes v) - off) (length buf) in
        ops.read_at buf off v ≡ (ok (n, take n (drop off (bytes v)) ++ drop n buf), v)
  pub read_past :
      (v : V) (buf : List ℕ) (off : ℕ)
      → Readable v
      → length (bytes v) ≤ off
      → (ops.read_at buf off v ≡ (ok (0, buf), v))
        ⊎ (ops.read_at buf off v ≡ (err OsError.unexpected_eof, v))
  pub write_within :
      (v : V) (new : List ℕ) (off : ℕ)
      → Writable v
      → 0 < length new
      → off + length new ≤ length (bytes v)
      → (after : V) × (ops.write_at new off v ≡ (ok (length new), after))
        × (bytes after ≡ splice (bytes v) off new)
        × Writable after
