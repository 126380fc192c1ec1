-- ===== src/Trap.antt =====
-- src/trap.rs: what the kernel does in a trap, with the page fault handler of src/trap/pagefault.rs and
-- the system calls of src/trap/syscall.rs. The assembly that saves and restores the frame is left out,
-- and so is the printing of the page fault handler, for which alone it looks up the page table entry.
pub mod Faults
pub mod UserByte
pub mod Routine
pub mod Access
mod Tests
use tacos.Prelude.{
  ltb, ℕ, ◌+◌, ◌-◌, ◌%◌, ◌^◌, Bool, true, false, List, [], ◌∷◌, ◌==◌, if◌then◌else◌,
}
use tacos.Prelude.Deque.{push_back}
use tacos.Prelude.Int.{ℤ, pos, negsuc}
use tacos.Prelude.Outcome.{Outcome, ok, err, panic, OsError, Exec, pure, raise, crash}
use tacos.Prelude.Run.{◌>>=◌, ◌>>◌}
use tacos.Thread.State.{Kernel}
use tacos.Thread.Manager.{schedule}
use tacos.Thread.Calls.{exit}
use tacos.Thread.Timer.{tick}
use tacos.Sync.Semaphore.{World, up}

abbrev pub usize_mod : ℕ
usize_mod = 2 ^ 64

-- `Frame`: `user` is the previous privilege, a field of `sstatus`.
pub record Frame : Type 0 where
  pub x : ℕ → ℕ
  pub user : Bool
  pub sepc : ℕ

-- What the handler works on: the frame, the kernel with the semaphore of the disk
-- (`USED_RING_NOTIFICATION`), whether traps are on in the supervisor, and the interrupts that the
-- controller has been told are done.
pub record Machine : Type 0 where
  pub frame : Frame
  pub ring : World
  pub sie : Bool
  pub completed : List ℕ

-- The causes of a trap (`scause`).
pub data Cause : Type 0 where
  user_env_call supervisor_timer : Cause
  supervisor_external : Cause
  instruction_fault illegal_instruction : Cause
  load_page_fault store_page_fault instruction_page_fault : Cause
  unsupported : Cause

abbrev pub set_register : ℕ → ℕ → Machine → Machine
set_register r v m = record m {
  frame = record m.frame { x = λ i. if r == i then v else m.frame.x i };
}

abbrev pub set_sepc : ℕ → Machine → Machine
set_sepc a m = record m { frame = record m.frame { sepc = a } }

-- `sstatus::set_sie`
abbrev pub set_sie : Machine → Machine
set_sie m = record m { sie = true }

abbrev pub modify_machine : (Machine → Machine) → Exec Machine Unit
modify_machine f m = (ok tt, f m)

abbrev pub on_ring : Exec World Unit → Exec Machine Unit
on_ring a m = let (r, w) = a m.ring in (r, record m { ring = w })

abbrev pub in_kernel : Exec Kernel Unit → Exec Machine Unit
in_kernel a m =
    let (r, k) = a m.ring.kernel in (r, record m { ring = record m.ring { kernel = k } })

-- `syscall_handler`, and its answer as a register holds it.
abbrev pub syscall_handler : ℕ → List ℕ → ℤ
syscall_handler id args = negsuc 0

abbrev pub as_usize : ℤ → ℕ
as_usize (pos n) = n % usize_mod
as_usize (negsuc n) = usize_mod - 1 - n

abbrev pub call_number : Machine → ℕ
call_number m = m.frame.x 17

abbrev pub call_arguments : Machine → List ℕ
call_arguments m = m.frame.x 10 ∷ m.frame.x 11 ∷ m.frame.x 12 ∷ []

-- `virtio::handle_interrupt`, where the device has this status.
unfoldable pub handle_interrupt : ℕ → Exec Machine Unit
handle_interrupt status = if status == 1 then on_ring up else crash

abbrev pub virtio0_id : ℕ
virtio0_id = 1

-- A caller that `up` has switched away from completes the interrupt when it is current again.
abbrev pub complete_if : ℕ → ℕ → Exec Machine Unit
complete_if caller id m =
    if m.ring.kernel.current == caller
    then (ok tt, record m { completed = push_back m.completed id })
    else (ok tt, m)

-- The addresses of the labels in src/mem/userbuf.rs: the access to user memory and the exit of the
-- routine that reads a byte, and of the one that writes it.
pub record Labels : Type 0 where
  pub read_usr_byte_pc : ℕ
  pub read_usr_exit : ℕ
  pub write_usr_byte_pc : ℕ
  pub write_usr_exit : ℕ

module _ (labels : Labels) where
  -- `pagefault::handler` for a fault of the kernel: one in the routines of src/mem/userbuf.rs goes on at
  -- their exit, with a1 set.
  unfoldable pub supervisor_fault : Exec Machine Unit
  supervisor_fault m =
      if m.frame.sepc == labels.read_usr_byte_pc
      then (ok tt, set_sepc labels.read_usr_exit (set_register 11 1 m))
      else if m.frame.sepc == labels.write_usr_byte_pc
      then (ok tt, set_sepc labels.write_usr_exit (set_register 11 1 m))
      else (panic, m)

  -- `pagefault::handler`
  unfoldable pub fault_handler : Exec Machine Unit
  fault_handler m0 =
      let m = set_sie m0 in if m.frame.user then in_kernel exit m else supervisor_fault m

  -- `trap_handler`; the controller answers the claim `id`, and the disk the status. An overflow of
  -- `sepc` panics.
  unfoldable pub trap_handler : ℕ → ℕ → Cause → Exec Machine Unit
  trap_handler id status Cause.user_env_call m0 =
      let m = set_sie m0 in
      let answer = as_usize (syscall_handler (call_number m) (call_arguments m)) in
      if ltb (m.frame.sepc + 4) usize_mod
      then (ok tt, set_register 10 answer (set_sepc (m.frame.sepc + 4) m))
      else (panic, m)
  trap_handler id status Cause.supervisor_timer m =
      (in_kernel tick >> modify_machine set_sie >> in_kernel schedule) m
  trap_handler id status Cause.supervisor_external m =
      if id == virtio0_id
      then (handle_interrupt status >> complete_if m.ring.kernel.current id) m
      else (panic, m)
  trap_handler id status Cause.instruction_fault m = (panic, m)
  trap_handler id status Cause.illegal_instruction m = (panic, m)
  trap_handler id status Cause.load_page_fault m = fault_handler m
  trap_handler id status Cause.store_page_fault m = fault_handler m
  trap_handler id status Cause.instruction_page_fault m = fault_handler m
  trap_handler id status Cause.unsupported m = (panic, m)
