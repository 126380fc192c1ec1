-- ===== src/Files/File/Laws.antt =====
-- Reading and writing a file over a vnode that keeps its contract.
use tacos.Prelude.{
  ℕ, zero, suc, ◌+◌, ◌-◌, ◌≤◌, ◌<◌, ◌≡◌, refl, sym, ap, ◌∙◌, true, List, [], ◌∷◌, ◌++◌, length,
  take, drop, min, ltb, inl, inr, ◌⊎◌, max, arith, length-take, length-drop, length-append,
  drop-all, take-append-drop, take-all, Bool-cases, append-nil, subst,
}
use tacos.Prelude.Outcome.{ok, err, OsError}
use tacos.Prelude.Run.{bind-ok, bind-err}
use tacos.Files.Stream
use tacos.Files.Stream.Rounds.{
  fill-nil, fill_round, fill_round_err, fill_end, fill_err, send-nil, send_round,
}
use tacos.Files.Vnode.{Vnode, IsVnode, splice}
use tacos.Files.File.{File, move_to, usize_mod, read, write, read_exact, write_all}

abbrev pub contents : {V : Type 0} → (V → List ℕ) → File V → List ℕ
contents bytes f = bytes f.vnode

-- What `write_all` leaves when it succeeds.
pub record Wrote {V : Type 0} (bytes : V → List ℕ) (Writable : V → Type 0) (new : List ℕ)
    (f after : File V) : Type 0 where
  pub written : contents bytes after ≡ splice (contents bytes f) f.cursor new
  pub cursor : after.cursor ≡ f.cursor + length new
  pub still : Writable after.vnode
  pub denial : after.denies_write ≡ f.denies_write

module _ {V : Type 0} (ops : Vnode V) (bytes : V → List ℕ) (Readable Writable : V → Type 0)
    (laws : IsVnode ops bytes Readable Writable) where
  -- The bytes behind the cursor that a read into `buf` gets.
  abbrev count_at : File V → List ℕ → ℕ
  count_at f buf = min (length (contents bytes f) - f.cursor) (length buf)

  read_within :
      (buf : List ℕ) (f : File V)
      → Readable f.vnode
      → f.cursor < length (contents bytes f)
      → length (contents bytes f) < usize_mod
      → let n = count_at f buf in
        read ops buf f ≡ (
          ok (n, take n (drop f.cursor (contents bytes f)) ++ drop n buf),
          move_to (f.cursor + n) f,
        )
  unfolding read
  read_within buf f r h fits =
      let n = count_at f buf in
      let small : ltb (f.cursor + n) usize_mod ≡ true = ground arith in
      let calls = laws.read_within f.vnode buf f.cursor r h in
      bind-ok _ _ {s' = f} (ap (λ x. (x.0, record f { vnode = x.1 })) calls) (rw small refl)

  read_past :
      (buf : List ℕ) (f : File V)
      → Readable f.vnode
      → length (contents bytes f) ≤ f.cursor
      → f.cursor < usize_mod
      → (read ops buf f ≡ (ok (0, buf), f)) ⊎ (read ops buf f ≡ (err OsError.unexpected_eof, f))
  unfolding read
  read_past buf f r h fits =
      let small : ltb (f.cursor + 0) usize_mod ≡ true = ground arith in
      let same : f.cursor + 0 ≡ f.cursor = omega arith in
      elim (laws.read_past f.vnode buf f.cursor r h) [
        | inl e ↦ inl (
            bind-ok _ _ {s' = f} (ap (λ x. (x.0, record f { vnode = x.1 })) e)
              (rw (small, same) refl))
        | inr e ↦ inr (bind-err _ _ {s' = f} (ap (λ x. (x.0, record f { vnode = x.1 })) e))
      ]

  fill_past :
      (fuel : ℕ) (buf : List ℕ) (f : File V)
      → Readable f.vnode
      → 0 < length buf
      → length buf ≤ fuel
      → length (contents bytes f) ≤ f.cursor
      → f.cursor < usize_mod
      → Stream.fill (read ops) fuel buf f ≡ (err OsError.unexpected_eof, f)
  fill_past fuel [] f r pos le h fits = absurd (omega arith)
  fill_past zero (b ∷ bs) f r pos le h fits = absurd (omega arith)
  fill_past (suc fuel) (b ∷ bs) f r pos le h fits = elim (read_past (b ∷ bs) f r h fits) [
    | inl e ↦ fill_end (read ops) fuel b bs f e
    | inr e ↦ fill_err (read ops) fuel b bs f e
  ]

  -- Where the bytes behind the cursor of a readable file fill the buffer, `read_exact` succeeds: it answers just those
  -- bytes and moves the cursor behind them.
  pub read_exact-fits :
      (buf : List ℕ) (f : File V)
      → Readable f.vnode
      → f.cursor + length buf ≤ length (contents bytes f)
      → length (contents bytes f) < usize_mod
      → read_exact ops buf f ≡ (
        ok (take (length buf) (drop f.cursor (contents bytes f))),
        move_to (f.cursor + length buf) f,
      )
  unfolding Stream.read_exact
  read_exact-fits [] f r h fits =
      let same : f.cursor + 0 ≡ f.cursor = omega arith in rw same (fill-nil (read ops) 0 f)
  read_exact-fits (b ∷ bs) f r h fits =
      let buf : List ℕ = b ∷ bs in
      let all_of_it : count_at f buf ≡ length buf = omega arith in
      let got : List ℕ = take (length buf) (drop f.cursor (contents bytes f)) in
      let full : length got ≡ length buf = omega (
        arith,
        length-take (length buf) (drop f.cursor (contents bytes f)),
        length-drop f.cursor (contents bytes f),
      ) in
      let none_left : drop (length buf) buf ≡ [] = drop-all (length buf) buf (omega arith) in
      let padded : got ++ drop (length buf) buf ≡ got =
        ap (λ l. got ++ l) none_left ∙ append-nil got in
      let reads : read ops buf f ≡ (ok (length buf, got), move_to (f.cursor + length buf) f) =
        subst
          (λ n. read ops buf f ≡ (
            ok (n, take n (drop f.cursor (contents bytes f)) ++ drop n buf),
            move_to (f.cursor + n) f,
          ))
          all_of_it (read_within buf f r (omega arith) fits)
        ∙ ap (λ l. (ok (length buf, l), move_to (f.cursor + length buf) f)) padded in
      let after : File V = move_to (f.cursor + length buf) f in
      let none_behind : drop (length buf) got ≡ [] = drop-all (length buf) got (omega arith) in
      fill_round (read ops) (length bs) b bs f reads (omega arith) (omega arith) (
        subst (λ l. Stream.fill (read ops) (length bs) l after ≡ (ok [], after)) (sym none_behind)
          (fill-nil (read ops) (length bs) after))
      ∙ ap (λ l. (ok l, after))
          (append-nil (take (length buf) got) ∙ take-all (length buf) got (omega arith))

  -- Where the bytes behind the cursor of a readable file do not fill the buffer, `read_exact` reports the end of the file, with the cursor at the end, or left
  -- where it was if it stood behind the end.
  pub read_exact-eof :
      (buf : List ℕ) (f : File V)
      → Readable f.vnode
      → 0 < length buf
      → length (contents bytes f) < f.cursor + length buf
      → length (contents bytes f) < usize_mod
      → f.cursor < usize_mod
      → read_exact ops buf f
        ≡ (err OsError.unexpected_eof, move_to (max f.cursor (length (contents bytes f))) f)
  unfolding Stream.read_exact
  read_exact-eof [] f r some h fits small = absurd (omega arith)
  read_exact-eof (b ∷ bs) f r some h fits small =
      elim (Bool-cases (ltb f.cursor (length (contents bytes f)))) [
        | inl inside ↦
            let buf : List ℕ = b ∷ bs in
            let n = count_at f buf in
            let got : List ℕ = take n (drop f.cursor (contents bytes f)) in
            let at_end : n ≡ length (contents bytes f) - f.cursor = ground arith in
            let got_n : length got ≡ n = omega (
              arith,
              length-take n (drop f.cursor (contents bytes f)),
              length-drop f.cursor (contents bytes f),
            ) in
            let size : length (got ++ drop n buf) ≡ length buf =
              ground (arith, length-append got (drop n buf), length-drop n buf) in
            let left : length (drop n (got ++ drop n buf)) ≡ length buf - n =
              omega (arith, length-drop n (got ++ drop n buf)) in
            fill_round_err (read ops) (length bs) b bs f (read_within buf f r (ground arith) fits)
              (ground arith) (ground arith)
              (fill_past (length bs) (drop n (got ++ drop n buf)) (move_to (f.cursor + n) f) r
                (ground arith) (ground arith) (ground arith) (ground arith))
            ∙ ap (λ c. (err OsError.unexpected_eof, move_to c f)) (ground arith)
        | inr behind ↦
            fill_past (suc (length bs)) (b ∷ bs) f r some (omega arith) (ground arith) small
            ∙ ap (λ c. (err OsError.unexpected_eof, move_to c f)) (ground arith)
      ]

  write_within :
      (new : List ℕ) (f : File V)
      → Writable f.vnode
      → 0 < length new
      → f.cursor + length new ≤ length (contents bytes f)
      → length (contents bytes f) < usize_mod
      → (after : File V) × (write ops new f ≡ (ok (length new), after))
        × (contents bytes after ≡ splice (contents bytes f) f.cursor new)
        × Writable after.vnode
        × (after.cursor ≡ f.cursor + length new)
        × (after.denies_write ≡ f.denies_write)
  unfolding write
  write_within new f w pos h fits =
      let (v, runs, content, still) = laws.write_within f.vnode new f.cursor w pos h in
      let small : ltb (f.cursor + length new) usize_mod ≡ true = ground arith in
      (
        record f { vnode = v; cursor = f.cursor + length new },
        bind-ok _ _ {s' = record f { vnode = v }} (ap (λ x. (x.0, record f { vnode = x.1 })) runs)
            (rw small refl),
        content,
        still,
        refl,
        refl,
      )

  -- Where the data fits in the file behind the cursor, `write_all` on a writable file succeeds: it
  -- replaces just the bytes that the data covers, moves the cursor behind them, and the file stays
  -- writable.
  pub write_all-fits :
      (new : List ℕ) (f : File V)
      → Writable f.vnode
      → f.cursor + length new ≤ length (contents bytes f)
      → length (contents bytes f) < usize_mod
      → (after : File V) × (write_all ops new f ≡ (ok tt, after)) × Wrote bytes Writable new f after
  unfolding Stream.write_all
  write_all-fits [] f w h fits =
      let same : f.cursor + 0 ≡ f.cursor = omega arith in
      (
        f,
        send-nil (write ops) 0 f,
        record {
          written = rw same (sym (take-append-drop f.cursor (contents bytes f)));
          cursor = omega arith;
          still = w;
          denial = refl;
        },
      )
  write_all-fits (b ∷ bs) f w h fits =
      let new : List ℕ = b ∷ bs in
      let (after, runs, content, still, moved, denial) =
        write_within new f w (omega arith) h fits in
      let none_left : drop (length new) new ≡ [] = drop-all (length new) new (omega arith) in
      (
        after,
        send_round (write ops) (length bs) b bs f runs (omega arith) (omega arith) (
            subst (λ l. Stream.send (write ops) (length bs) l after ≡ (ok tt, after))
              (sym none_left) (send-nil (write ops) (length bs) after)),
        record { written = content; cursor = moved; still = still; denial = denial },
      )
