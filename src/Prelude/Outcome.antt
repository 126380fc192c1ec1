-- ===== src/Prelude/Outcome.antt =====
-- What a call comes to. `OsError` is error.rs; a panic (an assertion, an index out of range, an
-- `unwrap` of nothing, an overflow under the dev profile) halts the machine and is a third outcome.

pub data OsError : Type 0 where
  bad_ptr unexpected_eof no_such_file unknown_format user_error create_exist_inode : OsError
  open_invalid_inode disk_sector_alloc_fail root_dir_full cstr_format_err : OsError
  argument_too_long invalid_file_mode file_not_opened : OsError

pub data Outcome {ℓ} (A : Type ℓ) : Type ℓ where
  ok : A → Outcome A
  err : OsError → Outcome A
  panic : Outcome A

-- A method on `&mut self`: what it wrote before an error stays written.
abbrev pub Exec {ℓ} : Type ℓ → Type ℓ → Type ℓ
Exec S A = S → Outcome A × S

module _ {ℓ} {S A : Type ℓ} where
  abbrev pub pure : A → Exec S A
  pure a s = (ok a, s)

  abbrev pub raise : OsError → Exec S A
  raise e s = (err e, s)

  abbrev pub crash : Exec S A
  crash s = (panic, s)

module _ {ℓ} {S A B : Type ℓ} where
  abbrev pub continue : Outcome A → (A → Exec S B) → Exec S B
  continue (ok a) f s = f a s
  continue (err e) f s = (err e, s)
  continue panic f s = (panic, s)

  infixl 10 ◌>>=◌ ◌>>◌
  abbrev pub ◌>>=◌ : Exec S A → (A → Exec S B) → Exec S B
  ◌>>=◌ m f s = let (r, s') = m s in continue r f s'

  abbrev pub ◌>>◌ : Exec S A → Exec S B → Exec S B
  m >> k = m >>= λ _. k
