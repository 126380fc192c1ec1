-- ===== src/Sync/Once.antt =====
-- src/sync/once.rs and src/sync/lazy.rs: cells that are initialized once. The function that a caller
-- hands over acts on a state of its own.
pub mod Laws
mod Tests
use tacos.Prelude.{Bool, true, false, Option, none, some}
use tacos.Prelude.Outcome.{Outcome, ok, err, panic, Exec}
use tacos.Prelude.Run.{◌>>=◌, ◌>>◌}
use tacos.Sync.Intr.{Intr, acquire, release}

-- `complete` is whether the state of the `Once` is `Complete`, `init` the function that a `Lazy` holds
-- (a cell without one holds nothing there), and `env` what the functions act on.
pub record Cell (T E : Type 0) : Type 0 where
  pub complete : Bool
  pub lock : Intr
  pub inner : Option T
  pub init : Option (Exec E T)
  pub env : E

module _ {T E : Type 0} where
  abbrev pub on_lock : Exec Intr Unit → Exec (Cell T E) Unit
  on_lock m c = let (r, lock) = m c.lock in (r, record c { lock = lock })

  abbrev pub complete_it : Exec (Cell T E) Unit
  complete_it c = (ok tt, record c { complete = true })

  -- What `call_once` does while it holds the lock.
  unfoldable pub run_incomplete : Exec (Cell T E) Unit → Exec (Cell T E) Unit
  run_incomplete f c = elim c.complete [ true ↦ (ok tt, c) | false ↦ (f >> complete_it) c ]

  -- `Once::call_once`
  unfoldable pub call_once : Exec (Cell T E) Unit → Exec (Cell T E) Unit
  call_once f c = elim c.complete [
    | true ↦ (ok tt, c)
    | false ↦ (on_lock acquire >> run_incomplete f >> on_lock release) c
  ]

  -- What the cell runs inside: the function, whose answer it keeps.
  abbrev pub store_answer : Exec E T → Exec (Cell T E) Unit
  store_answer f c =
      let (r, env) = f c.env in
      elim r [
        | ok x ↦ (ok tt, record c { inner = some x; env = env })
        | err e ↦ (err e, record c { env = env })
        | panic ↦ (panic, record c { env = env })
      ]

  -- `OnceCell::init`
  unfoldable pub init_cell : Exec E T → Exec (Cell T E) Unit
  init_cell f = call_once (store_answer f)

  -- `OnceCell::get`; `unreachable!` panics.
  unfoldable pub get_cell : Exec (Cell T E) T
  get_cell c = elim c.inner [ some x ↦ (ok x, c) | none ↦ (panic, c) ]

  -- `OnceCell::get_or_init`
  unfoldable pub get_or_init : Exec E T → Exec (Cell T E) T
  get_or_init f c = elim c.complete [ true ↦ get_cell c | false ↦ (init_cell f >> get_cell) c ]

  -- The function that a `Lazy` hands to its cell: the one that it holds, which it gives away.
  abbrev pub run_init : Exec (Cell T E) Unit
  run_init c = elim c.init [
    | none ↦ (panic, c)
    | some f ↦ store_answer f (record c { init = none })
  ]

  -- `Lazy::get`
  unfoldable pub get_lazy : Exec (Cell T E) T
  get_lazy c = elim c.complete [ true ↦ get_cell c | false ↦ (call_once run_init >> get_cell) c ]
