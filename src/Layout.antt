-- ===== src/Layout.antt =====
-- The constants of kernel/risc_v.h and kernel/memlayout.h, and the addresses that the linker gives
-- to the symbols of kernel/start.c, kernel/trap.c and kernel/vm.c.
use raynix.Base.{ℕ, ◌+◌, ◌-◌, ◌*◌, ◌^◌}

abbrev pub pgsize : ℕ
pgsize = 4096

abbrev pub pte_v : ℕ
pte_v = 1

abbrev pub pte_r : ℕ
pte_r = 2

abbrev pub pte_w : ℕ
pte_w = 4

abbrev pub pte_x : ℕ
pte_x = 8

abbrev pub pte_u : ℕ
pte_u = 16

abbrev pub mie_mtie : ℕ
mie_mtie = 2 ^ 7

abbrev pub mie_meie : ℕ
mie_meie = 2 ^ 11

abbrev pub mie_msie : ℕ
mie_msie = 2 ^ 3

abbrev pub sstatus_spp : ℕ
sstatus_spp = 2 ^ 8

abbrev pub sstatus_spie : ℕ
sstatus_spie = 2 ^ 5

abbrev pub sstatus_upie : ℕ
sstatus_upie = 2 ^ 4

abbrev pub sstatus_uie : ℕ
sstatus_uie = 1

abbrev pub sstatus_sie : ℕ
sstatus_sie = 2

abbrev pub maxva : ℕ
maxva = 2 ^ 38

abbrev pub uart0 : ℕ
uart0 = 0x1000_0000

abbrev pub uart0_irq : ℕ
uart0_irq = 10

abbrev pub virtio0 : ℕ
virtio0 = 0x1000_1000

abbrev pub virtio0_irq : ℕ
virtio0_irq = 1

abbrev pub clint : ℕ
clint = 0x200_0000

abbrev pub clint_mtimecmp : ℕ → ℕ
clint_mtimecmp hartid = clint + 0x4000 + 8 * hartid

abbrev pub clint_mtime : ℕ
clint_mtime = clint + 0xbff8

abbrev pub plic : ℕ
plic = 0xc00_0000

abbrev pub plic_priority : ℕ
plic_priority = plic

abbrev pub plic_pending : ℕ
plic_pending = plic + 0x1000

abbrev pub plic_menable : ℕ → ℕ
plic_menable hart = plic + 0x2000 + hart * 0x100

abbrev pub plic_senable : ℕ → ℕ
plic_senable hart = plic + 0x2080 + hart * 0x100

abbrev pub plic_mpriority : ℕ → ℕ
plic_mpriority hart = plic + 0x20_0000 + hart * 0x2000

abbrev pub plic_spriority : ℕ → ℕ
plic_spriority hart = plic + 0x20_1000 + hart * 0x2000

abbrev pub plic_mclaim : ℕ → ℕ
plic_mclaim hart = plic + 0x20_0004 + hart * 0x2000

abbrev pub plic_sclaim : ℕ → ℕ
plic_sclaim hart = plic + 0x20_1004 + hart * 0x2000

abbrev pub kernbase : ℕ
kernbase = 0x8000_0000

abbrev pub phystop : ℕ
phystop = kernbase + 128 * 1024 * 1024

abbrev pub trampoline_va : ℕ
trampoline_va = maxva - pgsize

-- `TRAPFRAME`
abbrev pub trapframe_va : ℕ
trapframe_va = trampoline_va - pgsize

-- `KSTACK(p)`
abbrev pub kstack : ℕ → ℕ
kstack p = trampoline_va - (p + 1) * 2 * pgsize

-- What the linker decides: where these symbols stand. `uservec` and `userret` lie in the page of
-- `trampoline`.
pub record Symbols : Type 0 where
  pub main : ℕ
  pub ttraph : ℕ
  pub ktraph : ℕ
  pub timer_scratch : ℕ
  pub etext : ℕ
  pub trampoline : ℕ
  pub uservec : ℕ
  pub userret : ℕ
  pub user_trap : ℕ
