-- ===== src/Files/Stream.antt =====
-- src/io.rs: the loops that the traits `Read` and `Write` provide. A buffer is a list of bytes that
-- keeps its length; `read` answers the number of bytes read and the buffer after it. What a read
-- leaves in the buffer before it fails is not part of the outcome.
pub mod Rounds
use tacos.Prelude.{
  ℕ, zero, suc, ◌+◌, Bool, true, false, List, [], ◌∷◌, ◌++◌, length, take, drop, ltb, ◌==◌,
}
use tacos.Prelude.Outcome.{OsError, Exec, pure, raise, crash}
use tacos.Prelude.Run.{◌>>=◌}

module _ {S : Type 0} (read : List ℕ → Exec S (ℕ × List ℕ)) where
  -- What stands after the loop.
  abbrev pub end_of_read : List ℕ → Exec S (List ℕ)
  end_of_read [] = pure []
  end_of_read (b ∷ bs) = raise OsError.unexpected_eof

  -- The loop of `read_exact`. A round that goes on takes at least one byte off the buffer, so the
  -- length of the buffer is enough fuel. A slice past the end of the buffer panics.
  unfoldable pub fill : ℕ → List ℕ → Exec S (List ℕ)
  fill zero buf = end_of_read buf
  fill (suc fuel) [] = pure []
  fill (suc fuel) (b ∷ bs) = read (b ∷ bs) >>= λ got.
      let (n, filled) = got in
      elim (n == 0) [
        | true ↦ raise OsError.unexpected_eof
        | false ↦ elim (ltb (length filled) n) [
          | true ↦ crash
          | false ↦ fill fuel (drop n filled) >>= λ rest. pure (take n filled ++ rest)
        ]
      ]

  unfoldable pub read_exact : List ℕ → Exec S (List ℕ)
  unfolding fill
  read_exact buf = fill (length buf) buf

module _ {S : Type 0} (write : List ℕ → Exec S ℕ) where
  -- The loop of `write_all`, with the same fuel.
  unfoldable pub send : ℕ → List ℕ → Exec S Unit
  send fuel [] = pure tt
  send zero (b ∷ bs) = raise OsError.unexpected_eof
  send (suc fuel) (b ∷ bs) = write (b ∷ bs) >>= λ n. elim (n == 0) [
    | true ↦ raise OsError.unexpected_eof
    | false ↦ elim (ltb (length (b ∷ bs)) n) [ true ↦ crash | false ↦ send fuel (drop n (b ∷ bs)) ]
  ]

  unfoldable pub write_all : List ℕ → Exec S Unit
  unfolding send
  write_all buf = send (length buf) buf
