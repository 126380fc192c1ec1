-- ===== src/Trap/UserByte.antt =====
-- src/mem/userbuf.rs: a byte of user memory, read and written from the kernel. The two routines are
-- assembly; an access to a page that is not there traps, and the page fault handler sends the routine
-- to its exit.
use tacos.Prelude.{ℕ, ◌+◌, ◌-◌, ◌%◌, Bool, false, ltb, leb, ◌==◌, if◌then◌else◌}
use tacos.Prelude.Outcome.{Outcome, ok, err, panic, OsError, Exec}
use tacos.Prelude.Run.{◌>>=◌, ◌>>◌}
use tacos.Mem.PageTable.{vm_offset}
use tacos.Trap.{Machine, Cause, Labels, trap_handler, set_register, usize_mod}

-- The registers t0, t1, a0 and a1.
abbrev t0 : ℕ
t0 = 5

abbrev t1 : ℕ
t1 = 6

abbrev a0 : ℕ
a0 = 10

abbrev a1 : ℕ
a1 = 11

-- The machine with the memory that the routine sees: bytes by virtual address, and which pages can be
-- read and written.
pub record Cpu : Type 0 where
  pub machine : Machine
  pub bytes : ℕ → ℕ
  pub readable : ℕ → Bool
  pub writable : ℕ → Bool

abbrev pub register : Cpu → ℕ → ℕ
register c r = c.machine.frame.x r

abbrev pub assign : ℕ → ℕ → Cpu → Cpu
assign r v c = record c { machine = set_register r v c.machine }

abbrev pub store_byte : ℕ → ℕ → Cpu → Cpu
store_byte at v c = record c { bytes = λ a. if at == a then v % 256 else c.bytes a }

abbrev pub move : (Cpu → Cpu) → Exec Cpu Unit
move f c = (ok tt, f c)

-- `lb` extends the sign of the byte.
abbrev pub sign_extend : ℕ → ℕ
sign_extend b = if ltb b 128 then b else b + usize_mod - 256

-- `in_kernel_space` of an address of 64 bits.
abbrev pub in_kernel_space : ℕ → Bool
in_kernel_space va = leb vm_offset va

-- `sret` restores traps and goes on at `sepc`. Anywhere but at `exit` the routine is lost.
abbrev pub return_at : ℕ → Cpu → Outcome (Unit {0}) × Machine → Outcome (Unit {0}) × Cpu
return_at exit c (ok done, m) =
    let back = record c { machine = record m { sie = c.machine.sie } } in
    if m.frame.sepc == exit then (ok done, back) else (panic, back)
return_at exit c (err e, m) = (panic, record c { machine = m })
return_at exit c (panic, m) = (panic, record c { machine = m })

module _ (labels : Labels) where
  -- A page fault at the label `pc`: the trap goes to the handler with traps off.
  unfoldable pub take_fault : Cause → ℕ → ℕ → Exec Cpu Unit
  take_fault cause pc exit c = return_at exit c (
      trap_handler labels 0 0 cause (record c.machine {
        frame = record c.machine.frame { sepc = pc; user = false };
        sie = false;
      }))

  -- `lb t0, (a0)`
  unfoldable pub load_user : Exec Cpu Unit
  load_user c =
      if c.readable (register c a0)
      then (ok tt, assign t0 (sign_extend (c.bytes (register c a0))) c)
      else take_fault Cause.load_page_fault labels.read_usr_byte_pc labels.read_usr_exit c

  -- `sb t1, (a0)`
  unfoldable pub store_user : Exec Cpu Unit
  store_user c =
      if c.writable (register c a0)
      then (ok tt, store_byte (register c a0) (register c t1) c)
      else take_fault Cause.store_page_fault labels.write_usr_byte_pc labels.write_usr_exit c

  -- `__knrl_read_usr_byte`; `byte_ptr` is on the stack of the kernel.
  unfoldable pub read_usr_byte : ℕ → ℕ → Exec Cpu ℕ
  read_usr_byte user_src byte_ptr =
      move (λ c. assign a1 byte_ptr (assign a0 user_src c))
      >> move (λ c. assign a1 0 (assign t1 (register c a1) c))
      >> load_user
      >> move (λ c. store_byte (register c t1) (register c t0) c)
      >> move (λ c. assign a0 (register c a1) c)
      >> λ c. (ok (register c a0), c)

  -- `__knrl_write_usr_byte`
  unfoldable pub write_usr_byte : ℕ → ℕ → Exec Cpu ℕ
  write_usr_byte user_src value =
      move (λ c. assign a1 value (assign a0 user_src c))
      >> move (λ c. assign a1 0 (assign t1 (register c a1) c))
      >> store_user
      >> move (λ c. assign a0 (register c a1) c)
      >> λ c. (ok (register c a0), c)

  -- `read_user_byte`, with the address of its local `byte`.
  unfoldable pub read_user_byte : ℕ → ℕ → Exec Cpu ℕ
  read_user_byte byte_ptr user_src c =
      if in_kernel_space user_src
      then (err OsError.bad_ptr, c)
      else (move (store_byte byte_ptr 0) >> read_usr_byte user_src byte_ptr >>= λ ret_status c.
            if ret_status == 0 then (ok (c.bytes byte_ptr), c) else (err OsError.bad_ptr, c))
          c

  -- `write_user_byte`
  unfoldable pub write_user_byte : ℕ → ℕ → Exec Cpu Unit
  write_user_byte user_src value c =
      if in_kernel_space user_src
      then (err OsError.bad_ptr, c)
      else (write_usr_byte user_src value >>= λ ret_status c.
            if ret_status == 0 then (ok tt, c) else (err OsError.bad_ptr, c))
          c
