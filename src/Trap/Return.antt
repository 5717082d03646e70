-- ===== src/Trap/Return.antt =====
-- `return_2_user` and `user_trap`: where they go, and in which mode.
use raynix.Base.{
  ℕ, suc, ◌+◌, ◌-◌, ◌*◌, ◌%◌, ◌^◌, ◌≡◌, refl, ap, ◌∙◌, ◌≢◌, Bool, true, false, some, ◌==◌,
  if◌then◌else◌, bit_and, bit_or, put, put_self, arith,
}
use raynix.Base.Bits.{bit, bit-bit_or, bit-bit_and}
use raynix.Layout.{Symbols, sstatus_sie, sstatus_spie, trampoline_va}
use raynix.Spinlock.{cpu_at}
use raynix.Proc.{Trapframe}
use raynix.Trap.{
  Machine, Jump, regs_of, user_sstatus, filled_frame, set_regs, code, sys_call, timer_inter,
  return_2_user, user_trap,
}

-- The machine `m'` at the jump to `userret`, for process `k`: the trap frame has what the next trap
-- needs but the page table of the kernel, and the hart is set to resume where the frame says, with
-- interrupts on, and in supervisor mode.
pub record IsReturning (sym : Symbols) (id k : ℕ) (m m' : Machine) (jump : Jump) : Type 0 where
  pub target : jump.target ≡ (trampoline_va + (sym.userret - sym.trampoline)) % 2 ^ 64
  pub argument : jump.argument ≡ (m.table.procs k).pagetable
  pub resume_at : (regs_of m').sepc ≡ (m.frames (m.table.procs k).tf).epc
  pub handler : (regs_of m').stvec ≡ (trampoline_va + (sym.uservec - sym.trampoline)) % 2 ^ 64
  pub supervisor : bit (regs_of m').sstatus 8 ≡ 1
  pub interrupts : bit (regs_of m').sstatus 5 ≡ 1
  pub frame : m'.frames (m.table.procs k).tf ≡ record (m.frames (m.table.procs k).tf) {
    kernel_sp = (m.kstack_of k + 4096) % 2 ^ 64;
    kernel_trap = sym.user_trap;
    kernel_hartid = id;
  }
  pub other_frames : (p : ℕ) → p ≢ (m.table.procs k).tf → m'.frames p ≡ m.frames p
  pub processes : m'.table.procs ≡ m.table.procs

-- the two results of `return_2_user`
abbrev jump_for : Symbols → ℕ → Machine → Jump
jump_for sym k m = record {
  target = (trampoline_va + (sym.userret - sym.trampoline)) % 2 ^ 64;
  argument = (m.table.procs k).pagetable;
}

abbrev returned : Symbols → ℕ → ℕ → Machine → Machine
returned sym id k m =
    let tf = (m.table.procs k).tf in
    let frame = filled_frame sym (regs_of m).satp (m.kstack_of k) id (m.frames tf) in
    record m {
      table = record m.table {
        hart = record m.table.hart {
          regs = record (regs_of m) {
            tp = id;
            sstatus = user_sstatus (bit_or (regs_of m).sstatus (2 ^ 64 - 1 - sstatus_sie));
            stvec = (trampoline_va + (sym.uservec - sym.trampoline)) % 2 ^ 64;
            sepc = frame.epc;
          };
        };
      };
      frames = put m.frames tf frame;
    }

-- the bits of the value that goes to `sstatus`
last_bits :
    (x : ℕ)
    → let y = user_sstatus (bit_or x (2 ^ 64 - 1 - sstatus_sie)) in (bit y 8 ≡ 1) × (bit y 5 ≡ 1)
last_bits x =
    let z = bit_or x (2 ^ 64 - 1 - sstatus_sie) in
    let mask = 2 ^ 64 - 1 - 3 * 2 ^ 11 in
    (
      omega (
        arith,
        bit-bit_or 8 (bit_and z mask) sstatus_spie,
        bit-bit_and 8 z mask,
        bit-bit_or 8 x (2 ^ 64 - 1 - sstatus_sie),
      ),
      omega (arith, bit-bit_or 5 (bit_and z mask) sstatus_spie),
    )

-- `return_2_user`, for the process that the hart's entry of `cpus` names, goes to `userret` set to
-- resume at the saved address with interrupts on; but the bit that names the mode to return to says
-- supervisor, since another field is cleared, `userret` gets the pointer to the process's page table
-- and not the value for `satp` that is computed from it, and the field `kernel_satp` of the frame is as
-- it was.
pub return_2_user-IsReturning :
    (sym : Symbols) (id k : ℕ) (m : Machine)
    → (cpu_at id m.table.hart).cur_proc ≡ suc k
    → (jump : Jump) × (m' : Machine) × (return_2_user sym id m ≡ some (jump, m'))
      × IsReturning sym id k m m' jump
unfolding return_2_user
return_2_user-IsReturning sym id k m own = (
  jump_for sym k m,
  returned sym id k m,
  rw own,
  record {
    target = refl;
    argument = refl;
    resume_at = refl;
    handler = refl;
    supervisor = (last_bits (regs_of m).sstatus).0;
    interrupts = (last_bits (regs_of m).sstatus).1;
    frame = put_self m.frames (m.table.procs k).tf _;
    other_frames = λ p ne. ground arith;
    processes = refl;
  },
)

-- The machine that `user_trap` hands to `return_2_user`.
abbrev trapped : Symbols → ℕ → ℕ → Machine → Machine
trapped sym id k m =
    let r = record (regs_of m) { stvec = sym.ktraph; tp = id } in
    let tf = (m.table.procs k).tf in
    record (set_regs r m) { frames = put m.frames tf (record (m.frames tf) { epc = r.sepc }) }

-- Three branches that agree.
same_branches : (b c : Bool) (x : Machine) → (if b then x else if c then x else x) ≡ x
same_branches false false x = refl
same_branches false true x = refl
same_branches true c x = refl

-- `user_trap`, for the process that the hart's entry of `cpus` names, resumes where the trap came
-- from, on whatever cause: `sepc` goes into the frame and comes back. The frame keeps the page table
-- of the kernel that it had, the handler is that of user mode again, and the mode supervisor.
pub user_trap-resumes :
    (sym : Symbols) (id k : ℕ) (m : Machine)
    → (cpu_at id m.table.hart).cur_proc ≡ suc k
    → (jump : Jump) × (m' : Machine) × (user_trap sym id m ≡ some (jump, m'))
      × ((regs_of m').sepc ≡ (regs_of m).sepc)
      × ((m'.frames (m.table.procs k).tf).epc ≡ (regs_of m).sepc)
      × ((m'.frames (m.table.procs k).tf).kernel_satp ≡ (m.frames (m.table.procs k).tf).kernel_satp)
      × ((regs_of m').stvec ≡ (trampoline_va + (sym.uservec - sym.trampoline)) % 2 ^ 64)
      × (bit (regs_of m').sstatus 8 ≡ 1)
unfolding user_trap
user_trap-resumes sym id k m own =
    let m2 : Machine = trapped sym id k m in
    let scause = (regs_of m).scause in
    let back = return_2_user-IsReturning sym id k m2 own in
    let saved =
      put_self m.frames (m.table.procs k).tf
        (record (m.frames (m.table.procs k).tf) { epc = (regs_of m).sepc }) in
    (
      back.0,
      back.1,
      rw own (rw (same_branches (scause == code sys_call) (scause == code timer_inter) m2) back.2),
      back.3.resume_at ∙ ap (λ (t : Trapframe). t.epc) saved,
      ap (λ (t : Trapframe). t.epc) back.3.frame ∙ ap (λ (t : Trapframe). t.epc) saved,
      ap (λ (t : Trapframe). t.kernel_satp) back.3.frame
          ∙ ap (λ (t : Trapframe). t.kernel_satp) saved,
      back.3.handler,
      back.3.supervisor,
    )
