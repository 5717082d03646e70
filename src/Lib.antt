-- ===== src/Lib.antt =====
-- Raynix: a model of the kernel of this repository, and what is proved of it.
--
-- The kernel is C for RISC-V. `start` runs on each hart in machine mode, sets up the timer and goes
-- to `main` by `mret`; the page allocator hands out pages of physical memory; page tables are made
-- of such pages; spinlocks guard the allocator and the drivers and count, per hart, how many are
-- held; the disk driver keeps descriptors that it shares with its device; the serial driver keeps
-- a ring of characters. The model follows the functions one by one, under their names.
--
-- Base: the operations on ℕ, lists and options that the other files share; Base/Bits has `&` and
--   `|` on ℕ. Machine integers are natural numbers with the wrap-around written out.
-- Memory: bytes at addresses, and 64-bit words in them. Address 0 is memory like any other.
-- Tools: kernel/tools.c, `set_memory` and `memmove`.
-- Layout: the constants of kernel/risc_v.h and kernel/memlayout.h; the symbols that the linker
--   places are the record `Symbols`. Riscv: kernel/risc_v.c, the registers of one hart.
-- Boot: kernel/start.c. `mret` is the privilege and the address at which the hart goes on,
--   and what the instruction does to `mstatus`.
-- Spinlock: kernel/spinlock.c with `struct cpu` of kernel/proc.h. The functions stand over one hart
--   (Layers, Lock). `acquire` of a taken lock is `none`, since the loop does not end with nothing
--   else running. Mutex has the lock under every interleaving of harts, as a step relation.
-- Kalloc: kernel/kalloc.c. `Kmem` is the memory, the head of the free list, the lock and the hart.
--   Kalloc/Held has the allocator under every order of calls.
-- Vm: kernel/vm.c and `init_proc_kstack` of kernel/proc.c, over the same state. Vm/Table has the
--   abstract view: `IsTree` says which pages are tables, `translate` reads an address and changes
--   nothing, and the other files relate the functions to these two.
-- Outcome: how a call of a driver ends. `forever` is also the end of a loop out of fuel.
-- Virtio: kernel/virtio_disk.c. The values that virtio.h, buf.h, param.h and fs.h would give are
--   the fields of `Config`, because those files are not in the repository. Virtio/Request has
--   `virtio_disk_rw`, cut at its two sleeps, Virtio/Setup has `virtio_disk_init` with the registers
--   of the device as the fields of `Mmio`, and Virtio/Interrupt has `virtio_disk_intr`. Virtio/Flight
--   has many requests at once, as a relation on states.
--   `free_chain` has fuel `NUM` + 1: each round frees a descriptor that was taken. The loop of the
--   interrupt has fuel 2 ^ 16: its counters have 16 bits.
-- Uart: kernel/uart.c. The chip is the parameter `Device`. `uart_send` has as much fuel as there
--   are characters between its cursors, and one more; `uart_inter` takes its fuel as an argument.
-- Sleeplock: kernel/sleeplock.c with nothing else running; a call that sleeps is `none`.
-- Bio: kernel/bio.c. Bio/Ring reads the links of the block cache as the list of buffers that they lead
--   through; Bio/Get has `bget` with nothing else running, whose first loop has as much fuel as the
--   ring has places; Bio/Io has `bread` and `bwrite` over the disk driver, cut at its sleeps.
-- Log: kernel/log.c, `begain_op` over the process table, cut at its sleeps. Log/Never has it under
--   every order of calls, as a relation on states.
-- Console: kernel/console.c.
-- Proc: kernel/proc.h and kernel/proc.c. A process is its index in the table. A function that
--   switches is cut at `swtch`: `scheduler`, `sleep` and `give_up` end there, and `scheduler_back`
--   and `sleep_back` are what follows. Proc/Locks has the calls around a lock that all share, and
--   Proc/Forever all calls in every order.
-- Pipe: kernel/pipe.c over the process table and the memory, cut at its sleeps in the same way.
-- Trap: kernel/trap.c, up to the jump to `userret`, with the trap frame of each process.
-- Mkfs: mkfs/mkfs.c, a program of the host. Its image is a file of bytes; what fs.h, stat.h and
--   param.h define is the parameter `Format`, whose laws are `IsFormat`, and `Host` says which calls
--   on the file succeed. Mkfs/Order has the byte order, Mkfs/Image the sectors, inodes and bitmap,
--   Mkfs/Append `iappend`, and Mkfs/Build `main`. The loop of `iappend` has `n` as its fuel, since a
--   round takes a byte at least.
-- Tests: concrete states, and the theorems on them.
--
-- Not modelled: the assembly and what the hardware does beyond the registers named here; other harts
--   and interrupts in the middle of a function, but for Spinlock/Mutex; `kalloc_init`, whose loop starts
--   at `KERNBASE`, where kernel/kernel.ld puts the kernel and the list of pages itself, and `main` of
--   kernel/main.c, which calls it with the lock of the allocator never set up; kernel/exec.c and
--   kernel/fs.c, which have no code.
pub mod Base
pub mod Memory
pub mod Tools
pub mod Layout
pub mod Riscv
pub mod Boot
pub mod Spinlock
pub mod Console
pub mod Kalloc
pub mod Log
pub mod Vm
pub mod Outcome
pub mod Virtio
pub mod Uart
pub mod Proc
pub mod Pipe
pub mod Mkfs
pub mod Trap
pub mod Sleeplock
pub mod Bio
pub mod Tests
