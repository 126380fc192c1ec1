-- ===== src/Sync/Once/Laws.antt =====
-- A cell is initialized by the first caller, and only then.
use tacos.Prelude.{Bool, true, false, Option, none, some, ◌≡◌, refl, ap}
use tacos.Prelude.Outcome.{Outcome, ok, err, panic, Exec}
use tacos.Prelude.Run.{then-ok}
use tacos.Sync.Intr.{acquire, release, new_intr}
use tacos.Sync.Once.{
  Cell, store_answer, run_init, run_incomplete, call_once, init_cell, get_cell, get_or_init,
  get_lazy,
}

-- A cell that nobody has initialized, with its lock free and interrupts at a level.
abbrev pub vacant : {T E : Type 0} → Bool → Option (Exec E T) → E → Cell T E
vacant level init env = record {
  complete = false;
  lock = new_intr level;
  inner = none;
  init = init;
  env = env;
}

-- A cell that holds a value.
abbrev pub filled : {T E : Type 0} → Bool → Option (Exec E T) → E → T → Cell T E
filled level init env x = record {
  complete = true;
  lock = new_intr level;
  inner = some x;
  init = init;
  env = env;
}

abbrev locked : {T E : Type 0} → Bool → Option (Exec E T) → E → Cell T E
locked level init env = record {
  complete = false;
  lock = record { level = false; saved = some level };
  inner = none;
  init = init;
  env = env;
}

-- Where what runs inside answers a value, a fresh cell runs it under the lock, keeps the value, and
-- gives the lock back.
call_once-vacant :
    {T E : Type 0} (level : Bool) (init : Option (Exec E T)) (run : Exec (Cell T E) Unit)
    (env env' : E) (x : T)
    → run (locked level init env) ≡ (ok tt, record (locked level none env') { inner = some x })
    → call_once run (vacant level init env) ≡ (ok tt, filled level none env' x)
unfolding call_once run_incomplete acquire release
call_once-vacant level init run env env' x e = then-ok _ _ {s' = locked level init env} refl (
    then-ok _ _ {s' = record (locked level none env') { complete = true; inner = some x }}
      (then-ok _ _ e refl) refl)

store_answer-ok :
    {T E : Type 0} (f : Exec E T) (c : Cell T E) (env' : E) (x : T)
    → f c.env ≡ (ok x, env')
    → store_answer f c ≡ (ok tt, record c { inner = some x; env = env' })
store_answer-ok {T = T} {E = E} f c env' x e =
    ap {A = Outcome T × E} {B = Outcome Unit × Cell T E}
      (λ r. elim r.0 [
        | ok x ↦ (ok tt, record c { inner = some x; env = r.1 })
        | err e ↦ (err e, record c { env = r.1 })
        | panic ↦ (panic, record c { env = r.1 })
      ])
      e

-- The first `get_or_init` of a fresh cell, with a function that answers, runs it once, answers its
-- value and leaves the level of interrupts as it was; every `get_or_init` after that, whatever
-- function it is given, answers the same value, runs nothing and changes nothing.
pub get_or_init-once :
    {T E : Type 0} (level : Bool) (f : Exec E T) (env env' : E) (x : T)
    → f env ≡ (ok x, env')
    → (get_or_init f (vacant level none env) ≡ (ok x, filled level none env' x))
      × ((g : Exec E T)
          → get_or_init g (filled level none env' x) ≡ (ok x, filled level none env' x))
unfolding get_or_init init_cell get_cell
get_or_init-once level f env env' x e = (
  then-ok _ _
      (call_once-vacant level none (store_answer f) env env' x
        (store_answer-ok f (locked level none env) env' x e))
      refl,
  λ g. refl,
)

-- The first `get` of a fresh `Lazy`, whose function answers, runs it once and answers its value; every
-- `get` after that answers the same value and changes nothing.
pub get_lazy-once :
    {T E : Type 0} (level : Bool) (f : Exec E T) (env env' : E) (x : T)
    → f env ≡ (ok x, env')
    → (get_lazy (vacant level (some f) env) ≡ (ok x, filled level none env' x))
      × (get_lazy (filled {E = E} level none env' x) ≡ (ok x, filled level none env' x))
unfolding get_lazy get_cell
get_lazy-once level f env env' x e = (
  then-ok _ _
      (call_once-vacant level (some f) run_init env env' x
        (store_answer-ok f (record (locked level (some f) env) { init = none }) env' x e))
      refl,
  refl,
)
