-- ===== src/Files/Tests.antt =====
-- A file of six bytes in memory, with its cursor at the third.
use tacos.Prelude.{false, ℕ, ◌+◌, ◌≡◌, refl, List, [], ◌∷◌, length, take, drop, arith}
use tacos.Prelude.Outcome.{ok}
use tacos.Prelude.Run.{◌>>=◌, ◌>>◌}
use tacos.Files.Vnode.{Vnode, IsVnode, splice}
use tacos.Files.File.{File, SeekFrom, move_to, read_exact, write_all, seek}
use tacos.Files.File.Laws.{contents, Wrote, read_exact-fits, write_all-fits}
use tacos.Files.File.Position.{read_exact-write_all}
use tacos.Files.Memory.{memory_inode}
use tacos.Files.Memory.Laws.{memory_inode-IsVnode}

abbrev ops : Vnode (List ℕ)
ops = memory_inode (λ bytes. 0x1000)

abbrev bytes : List ℕ → List ℕ
bytes v = v

abbrev Always : List ℕ → Type 0
Always v = Unit

laws : IsVnode ops bytes Always Always
laws = memory_inode-IsVnode (λ bytes. 0x1000)

abbrev file : File (List ℕ)
file = record { vnode = 1 ∷ 2 ∷ 3 ∷ 4 ∷ 5 ∷ 6 ∷ []; cursor = 2; denies_write = false }

abbrev blank : List ℕ
blank = 0 ∷ 0 ∷ 0 ∷ []

abbrev long : List ℕ
long = 9 ∷ 9 ∷ 9 ∷ 9 ∷ 9 ∷ []

memory_inode-IsVnode_example :
    IsVnode (memory_inode (λ bytes. 0x1000)) (λ v. v) (λ v. Unit) (λ v. Unit)
memory_inode-IsVnode_example = memory_inode-IsVnode (λ bytes. 0x1000)

read_exact-fits_example : read_exact ops blank file ≡ (
  ok (take (length blank) (drop file.cursor (contents bytes file))),
  move_to (file.cursor + length blank) file,
)
read_exact-fits_example =
    read_exact-fits ops bytes Always Always laws blank file tt (omega arith) (omega arith)

write_all-fits_example :
    (after : File (List ℕ)) × (write_all ops blank file ≡ (ok tt, after))
    × Wrote bytes Always blank file after
write_all-fits_example =
    write_all-fits ops bytes Always Always laws blank file tt (omega arith) (omega arith)

read_exact-write_all_example :
    (after : File (List ℕ)) × ((write_all ops (7 ∷ 8 ∷ 9 ∷ [])
          >> seek ops (SeekFrom.start file.cursor)
          >>= λ _. read_exact ops blank)
        file
      ≡ (ok (7 ∷ 8 ∷ 9 ∷ []), after))
    × (contents bytes after ≡ splice (contents bytes file) file.cursor (7 ∷ 8 ∷ 9 ∷ []))
read_exact-write_all_example =
    read_exact-write_all ops bytes Always Always laws (7 ∷ 8 ∷ 9 ∷ []) blank file tt refl
      (omega arith) (omega arith)
