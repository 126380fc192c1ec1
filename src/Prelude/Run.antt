-- ===== src/Prelude/Run.antt =====
-- Sequencing that stays shut, for long methods: a proof follows a run step by step, with a lemma for
-- the outcome of each step.
use mathlib.Core.Path.{◌≡◌, refl, ap}
use mathlib.Core.Bool.{Bool, true, false}
use tacos.Prelude.Tests.{if◌then◌else◌}
use tacos.Prelude.Outcome.{Outcome, ok, err, panic, OsError, Exec, continue}

module _ {ℓ} {S A B : Type ℓ} where
  infixr 10 ◌>>=◌ ◌>>◌
  unfoldable pub ◌>>=◌ : Exec S A → (A → Exec S B) → Exec S B
  ◌>>=◌ m f s = let (r, s') = m s in continue r f s'

  unfoldable pub ◌>>◌ : Exec S A → Exec S B → Exec S B
  unfolding ◌>>=◌
  ◌>>◌ m k s = (m >>= λ _. k) s

  pub bind-ok :
      (m : Exec S A) (f : A → Exec S B) {s s' : S} {a : A} {r : Outcome B × S}
      → m s ≡ (ok a, s')
      → f a s' ≡ r
      → (m >>= f) s ≡ r
  unfolding ◌>>=◌
  bind-ok m f e h = rw e h

  pub then-ok :
      (m : Exec S A) (k : Exec S B) {s s' : S} {a : A} {r : Outcome B × S}
      → m s ≡ (ok a, s')
      → k s' ≡ r
      → (m >> k) s ≡ r
  unfolding ◌>>◌
  then-ok m k e h = rw e h

  pub bind-panic :
      (m : Exec S A) (f : A → Exec S B) {s s' : S} → m s ≡ (panic, s') → (m >>= f) s ≡ (panic, s')
  unfolding ◌>>=◌
  bind-panic m f e = rw e

  pub then-panic :
      (m : Exec S A) (k : Exec S B) {s s' : S} → m s ≡ (panic, s') → (m >> k) s ≡ (panic, s')
  unfolding ◌>>◌
  then-panic m k e = rw e

  pub bind-err :
      (m : Exec S A) (f : A → Exec S B) {s s' : S} {e : OsError}
      → m s ≡ (err e, s')
      → (m >>= f) s ≡ (err e, s')
  unfolding ◌>>=◌
  bind-err m f h = rw h

  -- A chain that succeeds has succeeded in its first step.
  pub bind-inv :
      (m : Exec S A) (f : A → Exec S B) {s s' : S} {b : B}
      → (m >>= f) s ≡ (ok b, s')
      → (a : A) × (mid : S) × (m s ≡ (ok a, mid)) × (f a mid ≡ (ok b, s'))
  unfolding ◌>>=◌
  bind-inv m f {s = s} {s' = s'} {b = b} =
      elim (m s).0
          as (λ o.
            (m s).0 ≡ o
            → continue o f ((m s).1) ≡ (ok b, s')
            → (a : A) × (mid : S) × (m s ≡ (ok a, mid)) × (f a mid ≡ (ok b, s'))) [
              | ok a ↦ λ o e. (a, (m s).1, ap (λ x. (x, (m s).1)) o, e)
              | err x ↦ λ o e. cc
              | panic ↦ λ o e. cc
            ]
        refl

  pub then-inv :
      (m : Exec S A) (k : Exec S B) {s s' : S} {b : B}
      → (m >> k) s ≡ (ok b, s')
      → (a : A) × (mid : S) × (m s ≡ (ok a, mid)) × (k mid ≡ (ok b, s'))
  unfolding ◌>>◌
  then-inv m k e = bind-inv m (λ a. k) e

module _ {ℓ} {S A : Type ℓ} where
  pub ok-inv :
      {a b : A} {s s' : S}
      → let r : Outcome A × S = (ok a, s) in r ≡ (ok b, s') → (a ≡ b) × (s ≡ s')
  ok-inv e = (cc, ap (λ r. r.1) e)

  -- A check that passes was true.
  pub check-inv :
      (c : Bool) (a b : A) (s s' : S)
      → let r : Outcome A × S = if c then (ok a, s) else (panic, s) in
        r ≡ (ok b, s') → (c ≡ true) × (a ≡ b) × (s ≡ s')
  check-inv true a b s s' e = let (same, unchanged) = ok-inv e in (refl, same, unchanged)
  check-inv false a b s s' e = cc
