-- ===== src/Files/File.antt =====
-- `File` of src/fs.rs, over any vnode, and the trait `Seek` of src/io.rs at it. Positions are `usize`:
-- a sum that does not fit panics, and the casts to `isize` wrap around.
pub mod Laws
pub mod Position
use tacos.Prelude.{ℕ, zero, suc, ◌+◌, ◌-◌, ◌^◌, Bool, true, false, List, ltb, leb, if◌then◌else◌}
use tacos.Prelude.Outcome.{Outcome, ok, err, panic, Exec}
use tacos.Prelude.Run.{◌>>=◌, ◌>>◌}
use tacos.Prelude.Int.{ℤ, pos, negsuc}
use tacos.Files.Stream
use tacos.Files.Vnode.{Vnode}

pub record File (V : Type 0) : Type 0 where
  pub vnode : V
  pub cursor : ℕ
  pub denies_write : Bool

pub data SeekFrom : Type 0 where
  start : ℕ → SeekFrom
  end_ : ℤ → SeekFrom
  current : ℤ → SeekFrom

abbrev pub isize_bound : ℕ
isize_bound = 2 ^ 63

abbrev pub usize_mod : ℕ
usize_mod = 2 ^ 64

-- `u as isize`
abbrev pub as_isize : ℕ → ℤ
as_isize u = if ltb u isize_bound then pos u else negsuc (usize_mod - 1 - u)

-- `a - b` of natural numbers
abbrev pub minus : ℕ → ℕ → ℤ
minus a b = if leb b a then pos (a - b) else negsuc (b - a - 1)

infixl 20 ◌+ℤ◌
abbrev pub ◌+ℤ◌ : ℤ → ℤ → ℤ
◌+ℤ◌ (pos a) (pos b) = pos (a + b)
◌+ℤ◌ (pos a) (negsuc b) = minus a (suc b)
◌+ℤ◌ (negsuc a) (pos b) = minus b (suc a)
◌+ℤ◌ (negsuc a) (negsuc b) = negsuc (suc (a + b))

-- Whether a sum fits in `isize`.
abbrev pub in_isize : ℤ → Bool
in_isize (pos a) = ltb a isize_bound
in_isize (negsuc a) = ltb a isize_bound

-- `i.max(0) as usize`
abbrev pub clamp : ℤ → ℕ
clamp (pos a) = a
clamp (negsuc a) = 0

abbrev pub checked : ℤ → Outcome ℕ
checked i = if in_isize i then ok (clamp i) else panic

abbrev pub new_position : ℕ → ℕ → SeekFrom → Outcome ℕ
new_position len cursor (SeekFrom.start u) = ok u
new_position len cursor (SeekFrom.end_ i) = checked (as_isize len +ℤ i)
new_position len cursor (SeekFrom.current i) = checked (as_isize cursor +ℤ i)

module _ {V : Type 0} where
  abbrev pub move_to : ℕ → File V → File V
  move_to p f = record f { cursor = p }

  abbrev pub new : V → File V
  new v = record { vnode = v; cursor = 0; denies_write = false }

  -- A call of the vnode behind the file.
  abbrev pub on_vnode : {A : Type 0} → Exec V A → Exec (File V) A
  on_vnode m f = let (r, v) = m f.vnode in (r, record f { vnode = v })

  -- `self.pos += cnt; Ok(cnt)`
  abbrev pub advance : {A : Type 0} → (A → ℕ) → A → Exec (File V) A
  advance size a f =
      if ltb (f.cursor + size a) usize_mod
      then (ok a, record f { cursor = f.cursor + size a })
      else (panic, f)

  module _ (ops : Vnode V) where
    unfoldable pub read : List ℕ → Exec (File V) (ℕ × List ℕ)
    read buf f = (on_vnode (ops.read_at buf f.cursor) >>= advance (λ got. got.0)) f

    unfoldable pub write : List ℕ → Exec (File V) ℕ
    write buf f = (on_vnode (ops.write_at buf f.cursor) >>= advance (λ n. n)) f

    abbrev pub read_exact : List ℕ → Exec (File V) (List ℕ)
    read_exact = Stream.read_exact read

    abbrev pub write_all : List ℕ → Exec (File V) Unit
    write_all = Stream.write_all write

    pub set_len : ℕ → Exec (File V) Unit
    set_len size = on_vnode (ops.resize size)

    pub inum : File V → ℕ
    inum f = ops.inum f.vnode

    unfoldable pub seek : SeekFrom → Exec (File V) ℕ
    seek from f = elim (new_position (ops.len f.vnode) f.cursor from) [
      | ok p ↦ (ok p, move_to p f)
      | err e ↦ (Outcome.err e, f)
      | panic ↦ (panic, f)
    ]

    unfoldable pub rewind : Exec (File V) Unit
    unfolding seek
    rewind = seek (SeekFrom.start 0) >> (λ f. (ok tt, f))

    unfoldable pub stream_position : Exec (File V) ℕ
    unfolding seek
    stream_position = seek (SeekFrom.current (pos 0))

    -- `File::deny_write`, and what dropping the file does to the vnode.
    pub deny_write : Exec (File V) Unit
    deny_write f = on_vnode ops.deny_write (record f { denies_write = true })

    pub drop_file : Exec (File V) Unit
    drop_file f = if f.denies_write then on_vnode ops.allow_write f else (ok tt, f)
