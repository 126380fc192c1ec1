-- ===== src/Mem/Entry.antt =====
-- src/mem/pagetable/entry.rs: an entry of a page table is a word of 64 bits, its flags in the low ten
-- and the number of the page above them. A physical address is a number (mem/utils.rs).
use tacos.Prelude.{
  ℕ, ◌+◌, ◌-◌, ◌*◌, ◌/◌, ◌%◌, ◌<◌, ◌≡◌, Bool, ◌==◌, ◌&&◌, ◌||◌, if◌then◌else◌, arith,
}
use tacos.Mem.Buddy.{page_size}

-- The flags, of `PTEFlags`, by their weights; a set of flags is a number below 256.
abbrev pub flag_v : ℕ
flag_v = 1

abbrev pub flag_r : ℕ
flag_r = 2

abbrev pub flag_w : ℕ
flag_w = 4

abbrev pub flag_x : ℕ
flag_x = 8

abbrev pub flag_u : ℕ
flag_u = 16

abbrev pub flag_g : ℕ
flag_g = 32

abbrev pub flag_a : ℕ
flag_a = 64

abbrev pub flag_d : ℕ
flag_d = 128

-- `PPN_MASK + 1`
abbrev pub page_numbers : ℕ
page_numbers = 17592186044416

-- `contains`, of one flag.
unfoldable pub contains : ℕ → ℕ → Bool
contains flags weight = (flags / weight) % 2 == 1

-- `Entry::new`, for flags below 1024: they are or-ed with a word whose low ten bits are 0.
unfoldable pub new_entry : ℕ → ℕ → ℕ
new_entry pa flags = ((pa / page_size) % page_numbers) * 1024 + flags

unfoldable pub flag_of : ℕ → ℕ
flag_of entry = entry % 256

unfoldable pub ppn_of : ℕ → ℕ
ppn_of entry = (entry / 1024) % page_numbers

unfoldable pub pa_of : ℕ → ℕ
unfolding ppn_of
pa_of entry = ppn_of entry * page_size

unfoldable pub is_valid : ℕ → Bool
unfolding contains flag_of
is_valid entry = contains (flag_of entry) flag_v

unfoldable pub is_global : ℕ → Bool
unfolding contains flag_of
is_global entry = contains (flag_of entry) flag_g

unfoldable pub is_rwable : ℕ → Bool
unfolding contains flag_of
is_rwable entry = contains (flag_of entry) flag_r && contains (flag_of entry) flag_w

unfoldable pub is_user : ℕ → Bool
unfolding contains flag_of
is_user entry = contains (flag_of entry) flag_u

unfoldable pub is_dirty : ℕ → Bool
unfolding contains flag_of
is_dirty entry = contains (flag_of entry) flag_d

unfoldable pub is_executable : ℕ → Bool
unfolding contains flag_of
is_executable entry = contains (flag_of entry) flag_x

unfoldable pub is_accessed : ℕ → Bool
unfolding contains flag_of
is_accessed entry = contains (flag_of entry) flag_a

-- `self.0 &= !PTEFlags::V.bits`
unfoldable pub set_invalid : ℕ → ℕ
unfolding contains
set_invalid entry = if contains entry flag_v then entry - flag_v else entry

unfoldable pub set_unaccessed : ℕ → ℕ
unfolding contains
set_unaccessed entry = if contains entry flag_a then entry - flag_a else entry

unfoldable pub is_leaf : ℕ → Bool
unfolding contains flag_of
is_leaf entry =
    contains (flag_of entry) flag_r
    || (contains (flag_of entry) flag_w || contains (flag_of entry) flag_x)

-- The flags and the page of a new entry are those that it was made with, where the address is one of
-- the 2 ^ 56 of the machine.
pub flag_of-new_entry : (pa flags : ℕ) → flags < 256 → flag_of (new_entry pa flags) ≡ flags
unfolding flag_of new_entry
flag_of-new_entry pa flags h = omega arith

pub pa_of-new_entry :
    (pa flags : ℕ)
    → flags < 256
    → pa < 72057594037927936
    → pa % 4096 ≡ 0
    → pa_of (new_entry pa flags) ≡ pa
unfolding pa_of new_entry
pa_of-new_entry pa flags h fits aligned = omega arith
