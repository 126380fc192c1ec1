-- ===== src/Files/Stream/Rounds.antt =====
-- One round of the loops of src/io.rs, at each outcome of the call that the round makes.
use tacos.Prelude.{
  ℕ, zero, suc, ◌≤◌, ◌<◌, ◌≡◌, refl, false, List, [], ◌∷◌, ◌++◌, length, take, drop, ltb, ◌==◌,
  arith,
}
use tacos.Prelude.Outcome.{ok, err, Outcome, OsError, Exec}
use tacos.Prelude.Run.{bind-ok, bind-err}
use tacos.Files.Stream.{fill, send}

module _ {S : Type 0} (read : List ℕ → Exec S (ℕ × List ℕ)) where
  pub fill-nil : (fuel : ℕ) (s : S) → fill read fuel [] s ≡ (ok [], s)
  unfolding fill
  fill-nil zero s = refl
  fill-nil (suc fuel) s = refl

  pub fill_round :
      (fuel b : ℕ) (bs : List ℕ) (s : S) {n : ℕ} {filled rest : List ℕ} {mid after : S}
      → read (b ∷ bs) s ≡ (ok (n, filled), mid)
      → 0 < n
      → n ≤ length filled
      → fill read fuel (drop n filled) mid ≡ (ok rest, after)
      → fill read (suc fuel) (b ∷ bs) s ≡ (ok (take n filled ++ rest), after)
  unfolding fill
  fill_round fuel b bs s {n = n} {filled = filled} {rest = rest} {mid = mid} e pos le go =
      let some_read : (n == 0) ≡ false = ground arith in
      let fits : ltb (length filled) n ≡ false = ground arith in
      bind-ok _ _ {s' = mid} {a = (n, filled)} e (rw (some_read, fits) (bind-ok _ _ go refl))

  pub fill_round_err :
      (fuel b : ℕ) (bs : List ℕ) (s : S) {n : ℕ} {filled : List ℕ} {mid after : S} {c : OsError}
      → read (b ∷ bs) s ≡ (ok (n, filled), mid)
      → 0 < n
      → n ≤ length filled
      → fill read fuel (drop n filled) mid ≡ (err c, after)
      → fill read (suc fuel) (b ∷ bs) s ≡ (err c, after)
  unfolding fill
  fill_round_err fuel b bs s {n = n} {filled = filled} {mid = mid} e pos le go =
      let some_read : (n == 0) ≡ false = ground arith in
      let fits : ltb (length filled) n ≡ false = ground arith in
      bind-ok _ _ {s' = mid} {a = (n, filled)} e (rw (some_read, fits) (bind-err _ _ go))

  pub fill_end :
      (fuel b : ℕ) (bs : List ℕ) (s : S) {filled : List ℕ} {mid : S}
      → read (b ∷ bs) s ≡ (ok (0, filled), mid)
      → fill read (suc fuel) (b ∷ bs) s ≡ (err OsError.unexpected_eof, mid)
  unfolding fill
  fill_end fuel b bs s e = bind-ok _ _ e refl

  pub fill_err :
      (fuel b : ℕ) (bs : List ℕ) (s : S) {c : OsError} {mid : S}
      → read (b ∷ bs) s ≡ (err c, mid)
      → fill read (suc fuel) (b ∷ bs) s ≡ (err c, mid)
  unfolding fill
  fill_err fuel b bs s e = bind-err _ _ e

module _ {S : Type 0} (write : List ℕ → Exec S ℕ) where
  pub send-nil : (fuel : ℕ) (s : S) → send write fuel [] s ≡ (ok tt, s)
  unfolding send
  send-nil zero s = refl
  send-nil (suc fuel) s = refl

  pub send_round :
      (fuel b : ℕ) (bs : List ℕ) (s : S) {n : ℕ} {mid : S} {r : Outcome Unit × S}
      → write (b ∷ bs) s ≡ (ok n, mid)
      → 0 < n
      → n ≤ length (b ∷ bs)
      → send write fuel (drop n (b ∷ bs)) mid ≡ r
      → send write (suc fuel) (b ∷ bs) s ≡ r
  unfolding send
  send_round fuel b bs s {n = n} {mid = mid} e pos le go =
      let some_written : (n == 0) ≡ false = ground arith in
      let fits : ltb (length (b ∷ bs)) n ≡ false = ground arith in
      bind-ok _ _ {s' = mid} {a = n} e (rw (some_written, fits) go)

  pub send_err :
      (fuel b : ℕ) (bs : List ℕ) (s : S) {c : OsError} {mid : S}
      → write (b ∷ bs) s ≡ (err c, mid)
      → send write (suc fuel) (b ∷ bs) s ≡ (err c, mid)
  unfolding send
  send_err fuel b bs s e = bind-err _ _ e
