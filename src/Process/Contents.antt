-- ===== src/Process/Contents.antt =====
-- The bytes of a page that is filled from the file.
use tacos.Prelude.{
  ℕ, ◌+◌, ◌-◌, ◌≤◌, ◌<◌, ◌≡◌, refl, ◌∙◌, true, false, List, length, take, drop, ltb, get_or, arith,
  length-take, length-drop, length-append, length-replicate,
}
use tacos.Disk.Inode.Slices.{get_or-append, get_or-take, get_or-drop}
use tacos.Disk.Inode.Opening.{get_or-zeros}
use tacos.Process.{page_contents, zero_fill}

module _ (filebuf : List ℕ) (readpos readbytes : ℕ) (one : readbytes ≤ 4096)
    (inside : readpos + readbytes ≤ length filebuf) where
  length-read : length (take readbytes (drop readpos filebuf)) ≡ readbytes
  length-read =
      omega (arith, length-take readbytes (drop readpos filebuf), length-drop readpos filebuf)

  pub length-page_contents : length (page_contents filebuf readpos readbytes) ≡ 4096
  length-page_contents = omega (
    arith,
    length-append (take readbytes (drop readpos filebuf)) (zero_fill (4096 - readbytes)),
    length-read,
    length-replicate {A = ℕ} (4096 - readbytes) 0,
  )

  pub page_contents-read :
      (i : ℕ)
      → i < readbytes
      → get_or (page_contents filebuf readpos readbytes) i 0 ≡ get_or filebuf (readpos + i) 0
  page_contents-read i lt =
      let there : ltb i (length (take readbytes (drop readpos filebuf))) ≡ true =
        ground (arith, length-read) in
      get_or-append (take readbytes (drop readpos filebuf)) (zero_fill (4096 - readbytes)) i
      ∙ rw there refl
      ∙ get_or-take readbytes (drop readpos filebuf) i lt
      ∙ get_or-drop readpos filebuf i

  pub page_contents-zero :
      (i : ℕ) → readbytes ≤ i → get_or (page_contents filebuf readpos readbytes) i 0 ≡ 0
  page_contents-zero i le =
      let behind : ltb i (length (take readbytes (drop readpos filebuf))) ≡ false =
        ground (arith, length-read) in
      get_or-append (take readbytes (drop readpos filebuf)) (zero_fill (4096 - readbytes)) i
      ∙ rw behind refl
      ∙ get_or-zeros (4096 - readbytes) (i - length (take readbytes (drop readpos filebuf)))
