-- ===== src/Vm.antt =====
-- kernel/vm.c: three-level page tables in physical memory, over the allocator of kernel/kalloc.c;
-- with `init_proc_kstack` of kernel/proc.c, which `kvm_init` calls. `none` is a call that does not
-- return because the allocator's lock is taken.
pub mod Table
pub mod Entry
pub mod NewTable
pub mod Descend
pub mod Walk
pub mod Translate
pub mod Write
pub mod Map
pub mod Copy
pub mod Create
pub mod Paging
pub mod Stacks
use raynix.Base.{
  ℕ, zero, suc, ◌+◌, ◌-◌, ◌*◌, ◌/◌, ◌%◌, ◌^◌, Bool, not, Option, none, some, ◌>>=◌, bit_and, bit_or,
  ltb, ◌==◌, if◌then◌else◌,
}
use raynix.Layout.{
  Symbols, pgsize, pte_v, pte_r, pte_w, pte_x, uart0, virtio0, plic, kernbase, phystop,
  trampoline_va, kstack,
}
use raynix.Memory.{Addr, Memory, load64, store64}
use raynix.Tools.{set_memory, memmove}
use raynix.Riscv.{Regs, write_satp}
use raynix.Kalloc.{Kmem, kalloc, pgrounddown}

-- `x >> k` and, in 64 bits, `x << k`
infixl 75 ◌>>>◌ ◌<<<◌
abbrev pub ◌>>>◌ : ℕ → ℕ → ℕ
x >>> k = x / 2 ^ k

abbrev pub ◌<<<◌ : ℕ → ℕ → ℕ
x <<< k = x * 2 ^ k % 2 ^ 64

-- `&pagetable[index]`
abbrev pub slot : Addr → ℕ → Addr
slot pagetable index = pagetable + 8 * index

-- A new page, all zero: the branch of `walk` for a missing table, and `empty_vm_create`.
unfoldable pub empty_vm_create : ℕ → Kmem → Option (Addr × Kmem)
empty_vm_create id s = do
  (pagetable, s1) ← kalloc id s
  some (pagetable, record s1 { mem = set_memory s1.mem pagetable 0 pgsize })

-- One round of the loop in `walk`: from a table to the next, which is made if it is missing.
unfoldable pub descend : ℕ → ℕ → ℕ → Addr → Kmem → Option (Addr × Kmem)
descend id va i pagetable s =
    let cur_pte = slot pagetable (bit_and (va >>> (12 + 9 * (2 - i))) 0x1ff) in
    let pte = load64 s.mem cur_pte in
    if not (bit_and pte pte_v == 0) then some (pte >>> 10 <<< 12, s) else do
      (next, s1) ← empty_vm_create id s
      some (next, record s1 { mem = store64 s1.mem cur_pte (bit_or (next >>> 12 <<< 10) pte_v) })

-- `for(int i = 0; i < 2; i++)`, with `n` rounds left from `i` on
unfoldable pub walk_loop : ℕ → ℕ → ℕ → ℕ → Addr → Kmem → Option (Addr × Kmem)
walk_loop id va zero i pagetable s = some (pagetable, s)
walk_loop id va (suc n) i pagetable s = do
  (next, s1) ← descend id va i pagetable s
  walk_loop id va n (i + 1) next s1

-- The address of the last-level entry for `va`.
unfoldable pub walk : ℕ → Addr → ℕ → Kmem → Option (Addr × Kmem)
walk id pagetable va s = do
  (last, s1) ← walk_loop id va 2 0 pagetable s
  some (slot last (bit_and (va >>> 12) 0x1ff), s1)

unfoldable pub find_pa : ℕ → Addr → ℕ → Kmem → Option (ℕ × Kmem)
find_pa id pagetable va s = do
  (pte, s1) ← walk id pagetable va s
  some (bit_or (load64 s1.mem pte >>> 10 <<< 12) (bit_and va 0xfff), s1)

-- The entry that `map` writes.
abbrev pub leaf_entry : ℕ → ℕ → ℕ
leaf_entry pa permission = bit_or (bit_or (pa >>> 12 <<< 10) permission) pte_v

-- `for (int i = 0; i < size; i++)`, with `n` rounds left
unfoldable pub map_loop : ℕ → Addr → ℕ → ℕ → ℕ → ℕ → Kmem → Option Kmem
map_loop id pagetable permission zero va pa s = some s
map_loop id pagetable permission (suc n) va pa s = do
  (pte, s1) ← walk id pagetable va s
  map_loop id pagetable permission n ((va + 4096) % 2 ^ 64) ((pa + 4096) % 2 ^ 64)
      (record s1 { mem = store64 s1.mem pte (leaf_entry pa permission) })

-- `size` counts pages.
unfoldable pub map : ℕ → ℕ → ℕ → Addr → ℕ → ℕ → Kmem → Option Kmem
map id va pa pagetable size permission s =
    map_loop id pagetable permission size (pgrounddown va) pa s

-- `map(UART0, …)` to `map(TRAMPOLINE, …)`, with the third and fourth arguments as they stand
unfoldable pub fatal_pa_map : ℕ → Symbols → Addr → Kmem → Option Kmem
fatal_pa_map id sym kernel_pagetable s = do
  s1 ← map id uart0 uart0 kernel_pagetable pgsize (bit_or pte_r pte_w) s
  s2 ← map id virtio0 virtio0 kernel_pagetable pgsize (bit_or pte_r pte_w) s1
  s3 ← map id plic plic kernel_pagetable 0x40_0000 (bit_or pte_r pte_w) s2
  s4 ←
      map id kernbase kernbase kernel_pagetable ((sym.etext + 2 ^ 64 - kernbase) % 2 ^ 64)
        (bit_or pte_r pte_x) s3
  s5 ←
      map id sym.etext sym.etext kernel_pagetable ((phystop + 2 ^ 64 - sym.etext) % 2 ^ 64)
        (bit_or pte_r pte_w) s4
  map id trampoline_va sym.trampoline kernel_pagetable pgsize (bit_or pte_r pte_x) s5

-- `init_proc_kstack`, with `n` of its rounds left from process `i` on
unfoldable pub kstack_loop : ℕ → Addr → ℕ → ℕ → Kmem → Option Kmem
kstack_loop id pgt zero i s = some s
kstack_loop id pgt (suc n) i s = do
  (pa, s1) ← kalloc id s
  s2 ← map id (kstack i) pa pgt 4096 (bit_or pte_r pte_w) s1
  kstack_loop id pgt n (i + 1) s2

unfoldable pub init_proc_kstack : ℕ → Addr → Kmem → Option Kmem
init_proc_kstack id pgt s = kstack_loop id pgt 64 0 s

-- The kernel's page table and the memory after it is filled.
unfoldable pub kvm_init : ℕ → Symbols → Kmem → Option (Addr × Kmem)
kvm_init id sym s = do
  (kernel_pagetable, s1) ← empty_vm_create id s
  s2 ← fatal_pa_map id sym kernel_pagetable s1
  s3 ← init_proc_kstack id kernel_pagetable s2
  some (kernel_pagetable, s3)

-- A `uint` as the calling convention of RISC-V passes it, with bit 31 in the bits above it.
abbrev pub uint_argument : ℕ → ℕ
uint_argument x = if ltb (x % 2 ^ 32) (2 ^ 31) then x % 2 ^ 32 else x % 2 ^ 32 + 2 ^ 64 - 2 ^ 32

-- kernel/risc_v.h declares `write_satp` with a `uint`.
unfoldable pub kvm_page_start : Addr → Regs → Regs
kvm_page_start kernel_pagetable r =
    write_satp (uint_argument (bit_or (kernel_pagetable >>> 12) (8 <<< 60))) r

-- `memmove` takes its length as a `uint`.
unfoldable pub copy_in : ℕ → Addr → Addr → ℕ → ℕ → Kmem → Option Kmem
copy_in id pagetable target addr len s = do
  (pa_star, s1) ← find_pa id pagetable addr s
  some (record s1 { mem = memmove s1.mem target pa_star (len % 2 ^ 32) })

-- The arguments of `memmove` in the order of the source.
unfoldable pub copy_out : ℕ → Addr → ℕ → Addr → ℕ → Kmem → Option Kmem
copy_out id pagetable target source len s = do
  (pa_star, s1) ← find_pa id pagetable target s
  some (record s1 { mem = memmove s1.mem source pa_star (len % 2 ^ 32) })
