-- ===== src/Process/Tests.antt =====
-- A segment of five bytes at offset 8 of a file of 13, in a page of a process without pages.
use tacos.Prelude.{ℕ, true, false, List, [], ◌∷◌, replicate}
use tacos.Mem.Buddy
use tacos.Mem.Buddy.{Buddy}
use tacos.Mem.PageTable.Sample.{root, start}
use tacos.Process.{Segment, UserMemory}

abbrev file : List ℕ
file = replicate 13 7

abbrev segment : Segment
segment = record {
  offset = 8;
  vaddr = 20488;
  filesz = 5;
  memsz = 3000;
  executable = true;
  writable = false;
}

abbrev user_page : ℕ
user_page = 18446743800980176896

abbrev pool : Buddy
pool = record {
  free_lists = [] ∷ [] ∷ [] ∷ [] ∷ [] ∷ [] ∷ [] ∷ [] ∷ (user_page ∷ []) ∷ [];
  total = 256;
  allocated = 0;
}

abbrev memory : UserMemory
memory = record { pool = pool; paging = start; contents = λ a. []; table = root }

abbrev pool_left : Buddy
pool_left = (Buddy.alloc 1 pool).1
