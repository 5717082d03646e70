-- ===== src/Tests/Traps.antt =====
-- kernel/trap.c for a process on hart 1.
use raynix.Base.{◌+◌, ◌*◌, ◌%◌, ◌^◌, ◌≡◌, refl, some}
use raynix.Base.Bits.{bit}
use raynix.Layout.{trampoline_va}
use raynix.Proc.{Trapframe}
use raynix.Trap.{Machine, Jump, regs_of, set_regs, return_2_user, user_trap}
use raynix.Trap.Return.{IsReturning, return_2_user-IsReturning, user_trap-resumes}
use raynix.Tests.{regs}
use raynix.Tests.Booting.{linked}
use raynix.Tests.Procs.{asleep_and_ready}

abbrev zero_frame : Trapframe
zero_frame = record {
  kernel_satp = 0;
  kernel_sp = 0;
  kernel_trap = 0;
  epc = 0;
  kernel_hartid = 0;
  ra = 0;
  sp = 0;
  gp = 0;
  tp = 0;
  t0 = 0;
  t1 = 0;
  t2 = 0;
  s0 = 0;
  s1 = 0;
  a0 = 0;
  a1 = 0;
  a2 = 0;
  a3 = 0;
  a4 = 0;
  a5 = 0;
  a6 = 0;
  a7 = 0;
  s2 = 0;
  s3 = 0;
  s4 = 0;
  s5 = 0;
  s6 = 0;
  s7 = 0;
  s8 = 0;
  s9 = 0;
  s10 = 0;
  s11 = 0;
  t3 = 0;
  t4 = 0;
  t5 = 0;
  t6 = 0;
}

-- Process 2 has trapped at 0x1000, by a system call.
abbrev pub called : Machine
called =
    set_regs (record regs { sepc = 0x1000; scause = 8 })
      (record {
        table = asleep_and_ready;
        frames = λ p. zero_frame;
        kstack_of = λ k. 0x100000 * (k + 1);
      })

return_2_user-IsReturning_example :
    (jump : Jump) × (m' : Machine) × (return_2_user linked 1 called ≡ some (jump, m'))
    × IsReturning linked 1 2 called m' jump
return_2_user-IsReturning_example = return_2_user-IsReturning linked 1 2 called refl

user_trap-resumes_example :
    (jump : Jump) × (m' : Machine) × (user_trap linked 1 called ≡ some (jump, m'))
    × ((regs_of m').sepc ≡ 0x1000)
    × ((m'.frames 0x87000000).epc ≡ 0x1000)
    × ((m'.frames 0x87000000).kernel_satp ≡ 0)
    × ((regs_of m').stvec ≡ (trampoline_va + 0) % 2 ^ 64)
    × (bit (regs_of m').sstatus 8 ≡ 1)
user_trap-resumes_example = user_trap-resumes linked 1 2 called refl
