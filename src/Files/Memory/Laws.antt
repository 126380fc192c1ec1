-- ===== src/Files/Memory/Laws.antt =====
-- The vnode of src/fs/inmem.rs keeps the contract of a vnode, and how its files end.
use tacos.Prelude.{
  ℕ, zero, suc, ◌+◌, ◌-◌, ◌≤◌, ◌<◌, ◌≡◌, refl, true, false, inr, List, [], ◌∷◌, ◌++◌, length, take,
  drop, min, leb, ltb, arith, length-take, length-drop, length-append, take-all, drop-all,
  append-nil,
}
use tacos.Prelude.Outcome.{ok, err, OsError}
use tacos.Prelude.Run.{bind-ok, bind-err}
use tacos.Files.Stream
use tacos.Files.Stream.Rounds.{send_round, send_err}
use tacos.Files.Vnode.{IsVnode, splice}
use tacos.Files.File.{File, usize_mod, write, write_all}
use tacos.Files.Memory.{read_at, write_at, memory_inode}

module _ (address : List ℕ → ℕ) where
  -- A file in memory keeps the contract of a vnode, and can always be written.
  pub memory_inode-IsVnode : IsVnode (memory_inode address) (λ v. v) (λ v. Unit) (λ v. Unit)
  unfolding memory_inode read_at write_at
  memory_inode-IsVnode = record {
    readable = λ v w. w;
    len_lem = λ v. refl;
    read_within =
        λ v buf off r h. let inside : leb (length v) off ≡ false = ground arith in rw inside refl;
    read_past = λ v buf off r h.
        let outside : leb (length v) off ≡ true = ground arith in inr (rw outside refl);
    write_within = λ v new off w pos h.
        let inside : leb (length v) off ≡ false = ground arith in
        let all_of_it : min (length v - off) (length new) ≡ length new = omega arith in
        let whole : take (length new) new ≡ new = take-all (length new) new (omega arith) in
        (splice v off new, rw (inside, all_of_it, whole) refl, refl, w);
  }

  send_at_end :
      (fuel : ℕ) (buf : List ℕ) (f : File (List ℕ))
      → 0 < length buf
      → length buf ≤ fuel
      → length f.vnode ≤ f.cursor
      → Stream.send (write (memory_inode address)) fuel buf f ≡ (err OsError.unexpected_eof, f)
  unfolding write memory_inode write_at
  send_at_end fuel [] f pos le h = absurd (omega arith)
  send_at_end zero (b ∷ bs) f pos le h = absurd (omega arith)
  send_at_end (suc fuel) (b ∷ bs) f pos le h =
      let outside : leb (length f.vnode) f.cursor ≡ true = ground arith in
      send_err (write (memory_inode address)) fuel b bs f (bind-err _ _ {s' = f} (rw outside refl))

  -- Data that goes past the end of a file in memory, which never grows: `write_all` writes what fits
  -- and then reports the end, with the cursor there.
  write_all-past_end :
      (new : List ℕ) (f : File (List ℕ))
      → f.cursor < length f.vnode
      → length f.vnode < f.cursor + length new
      → length f.vnode < usize_mod
      → write_all (memory_inode address) new f ≡ (
        err OsError.unexpected_eof,
        record f {
          vnode = take f.cursor f.vnode ++ take (length f.vnode - f.cursor) new;
          cursor = length f.vnode;
        },
      )
  unfolding Stream.write_all write memory_inode write_at
  write_all-past_end [] f h over fits = absurd (omega arith)
  write_all-past_end (b ∷ bs) f h over fits =
      let new : List ℕ = b ∷ bs in
      let n = length f.vnode - f.cursor in
      let after : File (List ℕ) = record f {
        vnode = take f.cursor f.vnode ++ take n new;
        cursor = length f.vnode;
      } in
      let inside : leb (length f.vnode) f.cursor ≡ false = ground arith in
      let part : min n (length new) ≡ n = omega arith in
      let none_behind : drop (f.cursor + n) f.vnode ≡ [] =
        drop-all (f.cursor + n) f.vnode (omega arith) in
      let kept : take n new ++ [] ≡ take n new = append-nil (take n new) in
      let small : ltb (f.cursor + n) usize_mod ≡ true = ground arith in
      let to_end : f.cursor + n ≡ length f.vnode = omega arith in
      let writes : write (memory_inode address) new f ≡ (ok n, after) =
        bind-ok _ _ {s' = record f { vnode = after.vnode }} {a = n}
          (rw (inside, part, none_behind, kept) refl) (rw (small, to_end) refl) in
      let same : length after.vnode ≡ length f.vnode = omega (
        arith,
        length-append (take f.cursor f.vnode) (take n new),
        length-take f.cursor f.vnode,
        length-take n new,
      ) in
      send_round (write (memory_inode address)) (length bs) b bs f writes (omega arith)
        (omega arith)
        (send_at_end (length bs) (drop n new) after (omega (arith, length-drop n new))
          (omega (arith, length-drop n new)) (omega arith))
