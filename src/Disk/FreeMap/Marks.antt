-- ===== src/Disk/FreeMap/Marks.antt =====
-- One sector: what `get`, `set` and `reset` of free_map.rs do on a well-formed map.
use tacos.Prelude.{
  refl, ℕ, ◌+◌, ◌/◌, ◌%◌, ◌<◌, ◌≡◌, Bool, true, false, get_or, set, All, All-set, All-get_or,
  length, length-set, get_or-set_self, get_or-set_ne, get_elem?-eq-get_or, ◌==◌, if◌then◌else◌,
  arith, lt→ltb,
}
use tacos.Prelude.Bits.{test_bit, set_bit, clear_bit, test_bit-set_bit, test_bit-clear_bit, bits-lt}
use tacos.Prelude.Outcome.{ok}
use tacos.Disk.FreeMap.{FreeMap, u32_mod, get, set_sector, reset}

-- The bitmap has a byte for each eight sectors, rounded up.
pub record IsValid (m : FreeMap) : Type 0 where
  pub bytes : length m.bits ≡ (m.size + 7) / 8
  pub byte_range : All (λ b. b < 256) m.bits
  pub fits : m.size < u32_mod

-- The bit of a sector.
unfoldable pub used : FreeMap → ℕ → Bool
used m i = test_bit (get_or m.bits (i / 8) 0) (i % 8)

pub marked : FreeMap → ℕ → FreeMap
marked m i = record m { bits = set m.bits (i / 8) (set_bit (get_or m.bits (i / 8) 0) (i % 8)) }

pub cleared : FreeMap → ℕ → FreeMap
cleared m i = record m { bits = set m.bits (i / 8) (clear_bit (get_or m.bits (i / 8) 0) (i % 8)) }

pub size-marked : (m : FreeMap) (i : ℕ) → (marked m i).size ≡ m.size
unfolding marked
size-marked m i = refl

pub size-cleared : (m : FreeMap) (i : ℕ) → (cleared m i).size ≡ m.size
unfolding cleared
size-cleared m i = refl

module _ (m : FreeMap) (v : IsValid m) (i : ℕ) (h : i < m.size) where
  byte_in : i / 8 < length m.bits
  byte_in = omega arith

  byte_lt : get_or m.bits (i / 8) 0 < 256
  byte_lt = All-get_or (λ b. b < 256) m.bits (i / 8) 0 v.byte_range (omega arith)

  pub get-eq-used : get i m ≡ (ok (used m i), m)
  unfolding get used
  get-eq-used = rw (lt→ltb _ _ h, get_elem?-eq-get_or m.bits (i / 8) 0 byte_in)

  pub set-eq-marked : set_sector i m ≡ (ok tt, marked m i)
  unfolding set_sector marked
  set-eq-marked = rw (lt→ltb _ _ h, get_elem?-eq-get_or m.bits (i / 8) 0 byte_in)

  pub reset-eq-cleared : reset i m ≡ (ok tt, cleared m i)
  unfolding reset cleared
  reset-eq-cleared = rw (lt→ltb _ _ h, get_elem?-eq-get_or m.bits (i / 8) 0 byte_in)

  pub marked-IsValid : IsValid (marked m i)
  unfolding marked
  marked-IsValid = record {
    bytes = rw length-set v.bytes;
    byte_range =
        All-set (λ b. b < 256) m.bits (i / 8) _ v.byte_range
          (bits-lt _ (i % 8) byte_lt (omega arith)).0;
    fits = v.fits;
  }

  pub cleared-IsValid : IsValid (cleared m i)
  unfolding cleared
  cleared-IsValid = record {
    bytes = rw length-set v.bytes;
    byte_range =
        All-set (λ b. b < 256) m.bits (i / 8) _ v.byte_range
          (bits-lt _ (i % 8) byte_lt (omega arith)).1;
    fits = v.fits;
  }

  pub used-marked : (j : ℕ) → used (marked m i) j ≡ (if i == j then true else used m j)
  unfolding used marked
  used-marked j = ground (
    arith,
    get_or-set_self m.bits (i / 8) (set_bit (get_or m.bits (i / 8) 0) (i % 8)) 0 byte_in,
    get_or-set_ne m.bits (i / 8) (j / 8) (set_bit (get_or m.bits (i / 8) 0) (i % 8)) 0,
    test_bit-set_bit (get_or m.bits (i / 8) 0) (i % 8) (j % 8) byte_lt,
  )

  pub used-cleared : (j : ℕ) → used (cleared m i) j ≡ (if i == j then false else used m j)
  unfolding used cleared
  used-cleared j = ground (
    arith,
    get_or-set_self m.bits (i / 8) (clear_bit (get_or m.bits (i / 8) 0) (i % 8)) 0 byte_in,
    get_or-set_ne m.bits (i / 8) (j / 8) (clear_bit (get_or m.bits (i / 8) 0) (i % 8)) 0,
    test_bit-clear_bit (get_or m.bits (i / 8) 0) (i % 8) (j % 8) byte_lt,
  )
