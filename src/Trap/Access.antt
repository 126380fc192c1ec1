-- ===== src/Trap/Access.antt =====
-- Reading and writing a byte of user memory never brings the kernel down.
use tacos.Prelude.{
  ℕ, ◌%◌, ◌≤◌, ◌<◌, ◌≡◌, ◌≢◌, refl, ap, ◌∙◌, true, false, ◌==◌, if◌then◌else◌, arith, inl, inr,
  Bool-cases,
}
use tacos.Prelude.Outcome.{ok, err, OsError}
use tacos.Prelude.Run.{bind-ok, then-ok}
use tacos.Mem.PageTable.{vm_offset}
use tacos.Trap.{Labels}
use tacos.Trap.UserByte.{
  Cpu, register, assign, store_byte, sign_extend, in_kernel_space, read_usr_byte, write_usr_byte,
  read_user_byte, write_user_byte,
}
use tacos.Trap.Routine.{faulted, load_user-case, store_user-case, Untouched, sign_extend-low}

module _ (labels : Labels) where
  -- `read_user_byte` always returns: it answers the byte where the address is not the kernel's and its
  -- page can be read, and `BadPtr` in every other case, also after a page fault. The kernel, the
  -- interrupt state and the memory stay as they are, but for the local variable of the routine.
  pub read_user_byte-Untouched :
      (byte_ptr user_src : ℕ) (c : Cpu)
      → vm_offset ≤ byte_ptr
      → c.bytes user_src < 256
      → (after : Cpu) × (read_user_byte labels byte_ptr user_src c ≡ (
        if in_kernel_space user_src
            then err OsError.bad_ptr
            else if c.readable user_src
            then ok (c.bytes user_src)
            else err OsError.bad_ptr,
        after,
      ))
        × Untouched labels byte_ptr c after
  unfolding read_user_byte read_usr_byte
  read_user_byte-Untouched byte_ptr user_src c stack byte =
      elim (Bool-cases (in_kernel_space user_src)) [
        | inl kernel ↦ (
          c,
          rw kernel refl,
          record {
            ring = refl;
            sie = refl;
            completed = refl;
            readable = refl;
            writable = refl;
            elsewhere = λ a h. refl;
          },
        )
        | inr user ↦
            let apart : (byte_ptr == user_src) ≡ false = ground arith in
            let start : Cpu = store_byte byte_ptr 0 c in
            let ready : Cpu =
              assign 11 0 (assign 6 byte_ptr (assign 11 byte_ptr (assign 10 user_src start))) in
            elim (Bool-cases (c.readable user_src)) [
              | inl there ↦
                  let loaded : Cpu = assign 5 (sign_extend (start.bytes user_src)) ready in
                  let after : Cpu =
                    assign 10 0 (store_byte byte_ptr (sign_extend (start.bytes user_src)) loaded) in
                  let here : (byte_ptr == byte_ptr) ≡ true = ground arith in
                  let same : start.bytes user_src ≡ c.bytes user_src = rw apart refl in
                  let got : after.bytes byte_ptr ≡ c.bytes user_src = rw here (
                    ap (λ b. sign_extend b % 256) same
                    ∙ sign_extend-low labels (c.bytes user_src) byte) in
                  (
                    after,
                    rw (user, there)
                        (then-ok _ _ refl (
                          bind-ok _ _ {s' = after} {a = 0}
                            (then-ok _ _ refl (
                              then-ok _ _ refl (
                                then-ok _ _ (load_user-case labels ready true there)
                                  (then-ok _ _ refl (then-ok _ _ refl refl)))))
                            (ap (λ b. (ok b, after)) got))),
                    record {
                      ring = refl;
                      sie = refl;
                      completed = refl;
                      readable = refl;
                      writable = refl;
                      elsewhere = λ a h. ground arith;
                    },
                  )
              | inr missing ↦
                  let lost : Cpu = faulted labels labels.read_usr_exit ready in
                  let after : Cpu = assign 10 1 (store_byte byte_ptr (register ready 5) lost) in
                  (
                    after,
                    rw (user, missing)
                        (then-ok _ _ refl (
                          bind-ok _ _ {s' = after} {a = 1}
                            (then-ok _ _ refl (
                              then-ok _ _ refl (
                                then-ok _ _ (load_user-case labels ready false missing)
                                  (then-ok _ _ refl (then-ok _ _ refl refl)))))
                            refl)),
                    record {
                      ring = refl;
                      sie = refl;
                      completed = refl;
                      readable = refl;
                      writable = refl;
                      elsewhere = λ a h. ground arith;
                    },
                  )
            ]
      ]

  -- `write_user_byte` always returns: it writes the low byte of the value where the address is not the
  -- kernel's and its page can be written, and answers `BadPtr` in every other case, where it writes
  -- nothing, also after a page fault. The kernel, the interrupt state and every other address stay as
  -- they are. The labels of the two routines differ.
  pub write_user_byte-Untouched :
      (user_src value : ℕ) (c : Cpu)
      → labels.write_usr_byte_pc ≢ labels.read_usr_byte_pc
      → let writes = if in_kernel_space user_src then false else c.writable user_src in
        (after : Cpu) × (write_user_byte labels user_src value c
          ≡ (if writes then ok tt else err OsError.bad_ptr, after))
        × (after.bytes user_src ≡ (if writes then value % 256 else c.bytes user_src))
        × Untouched labels user_src c after
  unfolding write_user_byte write_usr_byte
  write_user_byte-Untouched user_src value c ne = elim (Bool-cases (in_kernel_space user_src)) [
    | inl kernel ↦ (
      c,
      rw kernel refl,
      rw kernel refl,
      record {
        ring = refl;
        sie = refl;
        completed = refl;
        readable = refl;
        writable = refl;
        elsewhere = λ a h. refl;
      },
    )
    | inr user ↦
        let ready : Cpu = assign 11 0 (assign 6 value (assign 11 value (assign 10 user_src c))) in
        elim (Bool-cases (c.writable user_src)) [
          | inl there ↦
              let after : Cpu = assign 10 0 (store_byte user_src value ready) in
              let here : (user_src == user_src) ≡ true = ground arith in
              (
                after,
                rw (user, there)
                    (bind-ok _ _ {s' = after} {a = 0}
                      (then-ok _ _ refl (
                        then-ok _ _ refl (
                          then-ok _ _ (store_user-case labels ready true ne there)
                            (then-ok _ _ refl refl))))
                      refl),
                rw (user, there, here) refl,
                record {
                  ring = refl;
                  sie = refl;
                  completed = refl;
                  readable = refl;
                  writable = refl;
                  elsewhere = λ a h. ground arith;
                },
              )
          | inr missing ↦
              let after : Cpu = assign 10 1 (faulted labels labels.write_usr_exit ready) in
              (
                after,
                rw (user, missing)
                    (bind-ok _ _ {s' = after} {a = 1}
                      (then-ok _ _ refl (
                        then-ok _ _ refl (
                          then-ok _ _ (store_user-case labels ready false ne missing)
                            (then-ok _ _ refl refl))))
                      refl),
                rw (user, missing) refl,
                record {
                  ring = refl;
                  sie = refl;
                  completed = refl;
                  readable = refl;
                  writable = refl;
                  elsewhere = λ a h. refl;
                },
              )
        ]
  ]
