-- ===== src/Trap/Tests.antt =====
-- Traps on the sample kernel.
use tacos.Prelude.{◌≡◌, refl, Bool, true, false, [], arith, ◌%◌, ◌==◌, if◌then◌else◌}
use tacos.Prelude.Outcome.{ok, err, OsError}
use tacos.Thread.Sample.{sample, sample-Inv, sample-Sleeping}
use tacos.Thread.State.{Status}
use tacos.Thread.Calls.Laws.{GivesUp}
use tacos.Trap.{Machine, Cause, Labels, trap_handler}
use tacos.Trap.Faults.{Preempted, loads, trap_handler-Preempted, trap_handler-GivesUp}
use tacos.Trap.UserByte.{Cpu, in_kernel_space, read_user_byte, write_user_byte}
use tacos.Trap.Routine.{Untouched}
use tacos.Trap.Access.{read_user_byte-Untouched, write_user_byte-Untouched}

abbrev labels : Labels
labels = record {
  read_usr_byte_pc = 108;
  read_usr_exit = 112;
  write_usr_byte_pc = 208;
  write_usr_exit = 212;
}

abbrev machine : Bool → Machine
machine user = record {
  frame = record { x = λ i. i; user = user; sepc = 4096 };
  ring = record { value = 0; waiters = []; kernel = sample };
  sie = false;
  completed = [];
}

-- The page at 8192 can be read and written, and no other.
abbrev cpu : Cpu
cpu = record {
  machine = machine false;
  bytes = λ a. 200;
  readable = λ a. a == 8192;
  writable = λ a. a == 8192;
}

trap_handler-Preempted_example :
    (after : Machine) × (trap_handler labels 0 0 Cause.supervisor_timer (machine true)
      ≡ (ok tt, after))
    × Preempted (machine true) after
trap_handler-Preempted_example =
    trap_handler-Preempted labels 0 0 (machine true) sample-Inv sample-Sleeping

trap_handler-GivesUp_example :
    (after : Machine) × (trap_handler labels 0 0 Cause.load_page_fault (machine true)
      ≡ (ok tt, after))
    × GivesUp Status.dying sample after.ring.kernel
trap_handler-GivesUp_example =
    trap_handler-GivesUp labels 0 0 Cause.load_page_fault (machine true) 1 loads refl sample-Inv
      refl

read_user_byte-Untouched_example :
    (after : Cpu) × (read_user_byte labels 18446743798831644672 4096 cpu ≡ (
      if in_kernel_space 4096
          then err OsError.bad_ptr
          else if cpu.readable 4096
          then ok (cpu.bytes 4096)
          else err OsError.bad_ptr,
      after,
    ))
    × Untouched labels 18446743798831644672 cpu after
read_user_byte-Untouched_example =
    read_user_byte-Untouched labels 18446743798831644672 4096 cpu (omega arith) (omega arith)

write_user_byte-Untouched_example :
    let writes = if in_kernel_space 8192 then false else cpu.writable 8192 in
    (after : Cpu) × (write_user_byte labels 8192 7 cpu
      ≡ (if writes then ok tt else err OsError.bad_ptr, after))
    × (after.bytes 8192 ≡ (if writes then 7 % 256 else cpu.bytes 8192))
    × Untouched labels 8192 cpu after
write_user_byte-Untouched_example =
    write_user_byte-Untouched labels 8192 7 cpu (λ e. absurd (omega (arith, e)))
