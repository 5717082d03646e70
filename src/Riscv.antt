-- ===== src/Riscv.antt =====
-- kernel/risc_v.c: the registers of one hart and the functions that read and write them. The
-- overlap of `sstatus` with `mstatus` in the hardware is not modelled: no function of the kernel
-- writes the one and reads the other.
use raynix.Base.{ℕ, Bool, not, bit_and, ◌==◌}
use raynix.Layout.{sstatus_sie}

pub record Regs : Type 0 where
  pub mstatus : ℕ
  pub mepc : ℕ
  pub satp : ℕ
  pub stvec : ℕ
  pub mhartid : ℕ
  pub tp : ℕ
  pub sstatus : ℕ
  pub scause : ℕ
  pub mscratch : ℕ
  pub mtvec : ℕ
  pub mie : ℕ
  pub sepc : ℕ

abbrev pub read_mstatus : Regs → ℕ
read_mstatus r = r.mstatus

abbrev pub write_mstatus : ℕ → Regs → Regs
write_mstatus x r = record r { mstatus = x }

abbrev pub write_mepc : ℕ → Regs → Regs
write_mepc x r = record r { mepc = x }

abbrev pub write_satp : ℕ → Regs → Regs
write_satp x r = record r { satp = x }

abbrev pub write_stvec : ℕ → Regs → Regs
write_stvec x r = record r { stvec = x }

abbrev pub read_mhartid : Regs → ℕ
read_mhartid r = r.mhartid

abbrev pub write_tp : ℕ → Regs → Regs
write_tp x r = record r { tp = x }

-- The instruction is `mv tp, %0` with `%0` an output: it copies whatever the register chosen for
-- the result holds into `tp` and returns it. `id` is that value.
abbrev pub read_tp : ℕ → Regs → ℕ × Regs
read_tp id r = (id, record r { tp = id })

abbrev pub read_scause : Regs → ℕ
read_scause r = r.scause

abbrev pub write_mscratch : ℕ → Regs → Regs
write_mscratch x r = record r { mscratch = x }

abbrev pub write_mtvec : ℕ → Regs → Regs
write_mtvec x r = record r { mtvec = x }

abbrev pub read_mie : Regs → ℕ
read_mie r = r.mie

abbrev pub write_mie : ℕ → Regs → Regs
write_mie x r = record r { mie = x }

abbrev pub read_sstatus : Regs → ℕ
read_sstatus r = r.sstatus

abbrev pub write_sstatus : ℕ → Regs → Regs
write_sstatus x r = record r { sstatus = x }

abbrev pub read_satp : Regs → ℕ
read_satp r = r.satp

abbrev pub read_stvec : Regs → ℕ
read_stvec r = r.stvec

-- The mask stands on the name of `read_sstatus`, and is read as one on its result.
abbrev pub check_open_interrupts : Regs → Bool
check_open_interrupts r = not (bit_and (read_sstatus r) sstatus_sie == 0)

abbrev pub write_sepc : ℕ → Regs → Regs
write_sepc x r = record r { sepc = x }

abbrev pub read_sepc : Regs → ℕ
read_sepc r = r.sepc
