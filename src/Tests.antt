-- ===== src/Tests.antt =====
-- Concrete states, and the theorems on them.
mod Bytes
mod Locks
mod Pages
mod Tables
mod Booting
mod Disks
mod Serial
mod Buffers
mod Requests
mod Stacks
mod Logs
mod Procs
mod Pipes
mod Traps
mod Layouts
mod Images
mod Devices
use raynix.Base.{ℕ, ◌+◌, ◌*◌, List, [], ◌∷◌, replicate}
use raynix.Layout.{Symbols}
use raynix.Memory.{Memory, store64}
use raynix.Riscv.{Regs}
use raynix.Spinlock.{Cpu, zero_cpu, Hart}
use raynix.Kalloc.{Kmem, free_page}

abbrev pub regs : Regs
regs = record {
  mstatus = 0x1800;
  mepc = 0;
  satp = 0;
  stvec = 0;
  mhartid = 1;
  tp = 0;
  sstatus = 2;
  scause = 0;
  mscratch = 0;
  mtvec = 0;
  mie = 0;
  sepc = 0;
}

abbrev pub hart : Hart
hart = record { regs = regs; cpus = replicate 8 zero_cpu }

abbrev pub blank : Memory
blank a = 0

abbrev pub no_pages : Kmem
no_pages = record { hart = hart; lock = 1; page_link = 0; mem = blank }

-- two free pages, at 8192 and 12288
abbrev pub two_pages : Kmem
two_pages = free_page 8192 (free_page 12288 no_pages)
