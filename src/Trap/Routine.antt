-- ===== src/Trap/Routine.antt =====
-- An access to user memory in the routines of src/mem/userbuf.rs, with the fault that it can take.
use tacos.Prelude.{
  ℕ, ◌%◌, ◌<◌, ◌≡◌, ◌≢◌, refl, ap, ◌∙◌, Bool, true, false, ltb, ◌==◌, if◌then◌else◌, arith, inl,
  inr, Bool-cases,
}
use tacos.Prelude.Outcome.{Outcome, ok, panic}
use tacos.Trap.{
  Machine, Cause, Labels, trap_handler, fault_handler, supervisor_fault, set_register, set_sepc,
  set_sie,
}
use tacos.Trap.UserByte.{
  Cpu, register, assign, store_byte, sign_extend, return_at, take_fault, load_user, store_user,
}

module _ (labels : Labels) where
  -- After a fault in a routine: a1 is 1, and the routine goes on at its exit.
  abbrev pub faulted : ℕ → Cpu → Cpu
  faulted exit c = record c {
    machine = record c.machine {
      frame = record {
        x = λ i. if 11 == i then 1 else c.machine.frame.x i;
        user = false;
        sepc = exit;
      };
    };
  }

  -- The machine in the handler, and the machine that the handler leaves.
  abbrev trapped : ℕ → Cpu → Machine
  trapped pc c = record c.machine {
    frame = record c.machine.frame { sepc = pc; user = false };
    sie = false;
  }

  abbrev handled : ℕ → ℕ → Cpu → Machine
  handled pc exit c = set_sepc exit (set_register 11 1 (set_sie (trapped pc c)))

  handles-load :
      (c : Cpu)
      → trap_handler labels 0 0 Cause.load_page_fault (trapped labels.read_usr_byte_pc c)
        ≡ (ok tt, handled labels.read_usr_byte_pc labels.read_usr_exit c)
  unfolding trap_handler fault_handler supervisor_fault
  handles-load c =
      let pc : (labels.read_usr_byte_pc == labels.read_usr_byte_pc) ≡ true = ground arith in
      rw (pc, trap_handler, fault_handler, supervisor_fault) refl

  handles-store :
      (c : Cpu)
      → labels.write_usr_byte_pc ≢ labels.read_usr_byte_pc
      → trap_handler labels 0 0 Cause.store_page_fault (trapped labels.write_usr_byte_pc c)
        ≡ (ok tt, handled labels.write_usr_byte_pc labels.write_usr_exit c)
  unfolding trap_handler fault_handler supervisor_fault
  handles-store c ne =
      let other : (labels.write_usr_byte_pc == labels.read_usr_byte_pc) ≡ false = ground arith in
      let pc : (labels.write_usr_byte_pc == labels.write_usr_byte_pc) ≡ true = ground arith in
      rw (other, pc, trap_handler, fault_handler, supervisor_fault) refl

  pub returns :
      (pc exit : ℕ) (c : Cpu) (r : Outcome (Unit {0}) × Machine)
      → r ≡ (ok tt, handled pc exit c)
      → return_at exit c r ≡ (ok tt, faulted exit c)
  returns pc exit c r e =
      let self : (exit == exit) ≡ true = ground arith in
      ap (return_at exit c) e
      ∙ ap {A = Bool} (λ b. if b then (ok tt, faulted exit c) else (panic, faulted exit c)) self

  take_fault-load :
      (c : Cpu)
      → take_fault labels Cause.load_page_fault labels.read_usr_byte_pc labels.read_usr_exit c
        ≡ (ok tt, faulted labels.read_usr_exit c)
  unfolding take_fault
  take_fault-load c = returns labels.read_usr_byte_pc labels.read_usr_exit c _ (handles-load c)

  take_fault-store :
      (c : Cpu)
      → labels.write_usr_byte_pc ≢ labels.read_usr_byte_pc
      → take_fault labels Cause.store_page_fault labels.write_usr_byte_pc labels.write_usr_exit c
        ≡ (ok tt, faulted labels.write_usr_exit c)
  unfolding take_fault
  take_fault-store c ne =
      returns labels.write_usr_byte_pc labels.write_usr_exit c _ (handles-store c ne)

  pub load_user-case :
      (c : Cpu) (b : Bool)
      → c.readable (register c 10) ≡ b
      → load_user labels c ≡ (
        ok tt,
        if b
            then assign 5 (sign_extend (c.bytes (register c 10))) c
            else faulted labels.read_usr_exit c,
      )
  unfolding load_user
  load_user-case c true e = rw e refl
  load_user-case c false e = rw e (take_fault-load c)

  pub store_user-case :
      (c : Cpu) (b : Bool)
      → labels.write_usr_byte_pc ≢ labels.read_usr_byte_pc
      → c.writable (register c 10) ≡ b
      → store_user labels c ≡ (
        ok tt,
        if b then store_byte (register c 10) (register c 6) c else faulted labels.write_usr_exit c,
      )
  unfolding store_user
  store_user-case c true ne e = rw e refl
  store_user-case c false ne e = rw e (take_fault-store c ne)

  -- What a routine leaves of the machine: its kernel, its interrupt state and its pages; of the memory
  -- it changes one address at most.
  pub record Untouched (at : ℕ) (c after : Cpu) : Type 0 where
    pub ring : after.machine.ring ≡ c.machine.ring
    pub sie : after.machine.sie ≡ c.machine.sie
    pub completed : after.machine.completed ≡ c.machine.completed
    pub readable : after.readable ≡ c.readable
    pub writable : after.writable ≡ c.writable
    pub elsewhere : (a : ℕ) → a ≢ at → after.bytes a ≡ c.bytes a

  pub sign_extend-low : (b : ℕ) → b < 256 → sign_extend b % 256 ≡ b
  sign_extend-low b h = elim (Bool-cases (ltb b 128)) [
    | inl low ↦ rw low (omega arith)
    | inr high ↦ rw high (omega arith)
  ]
