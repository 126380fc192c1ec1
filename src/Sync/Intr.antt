-- ===== src/Sync/Intr.antt =====
-- src/sync/intr.rs, and the level of interrupts that it sets, src/sbi/interrupt.rs.
use tacos.Prelude.{Bool, false, Option, none, some}
use tacos.Prelude.Outcome.{ok, panic, Exec}

-- A lock, and the level of interrupts of the machine.
pub record Intr : Type 0 where
  pub level : Bool
  pub saved : Option Bool

abbrev pub new_intr : Bool → Intr
new_intr level = record { level = level; saved = none }

-- `interrupt::set`: the level that was is answered.
abbrev pub set_level : Bool → Intr → Bool × Intr
set_level level i = (i.level, record i { level = level })

unfoldable pub acquire : Exec Intr Unit
acquire i =
    let (old, off) = set_level false i in
    elim off.saved [
      | some held ↦ (panic, off)
      | none ↦
          let (_, restored) = set_level old off in
          let (level, taken) = set_level false restored in
          (ok tt, record taken { saved = some level })
    ]

unfoldable pub release : Exec Intr Unit
release i = elim i.saved [
  | none ↦ (panic, i)
  | some level ↦ let (_, restored) = set_level level i in (ok tt, record restored { saved = none })
]
