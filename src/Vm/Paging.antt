-- ===== src/Vm/Paging.antt =====
-- `kvm_page_start`: what `satp` holds after it.
use raynix.Base.{◌+◌, ◌/◌, ◌%◌, ◌^◌, ◌<◌, ◌≡◌, refl, ◌∙◌, arith, true, ltb, bit_or}
use raynix.Base.Bits.{bit_or_comm, bit_or-fields}
use raynix.Memory.{Addr}
use raynix.Riscv.{Regs}
use raynix.Vm.{kvm_page_start}

-- the value that is meant for `satp`: the mode in the bits from 60 on, and the number of the page
mode_and_page : (pgt : Addr) → pgt < 2 ^ 56 → bit_or (pgt / 2 ^ 12) (2 ^ 63) ≡ 2 ^ 63 + pgt / 2 ^ 12
mode_and_page pgt h =
    bit_or_comm (2 ^ 64) (pgt / 2 ^ 12) (2 ^ 63) (omega arith) (omega arith)
    ∙ bit_or-fields 60 8 (pgt / 2 ^ 12) (omega arith)

-- For a page table below 2 ^ 43, `kvm_page_start` sets `satp` to the number of its page with mode 0,
-- for which the hart does not translate: the mode does not fit the `uint` that the value goes through.
pub kvm_page_start-satp :
    (pgt : Addr) (r : Regs)
    → pgt < 2 ^ 43
    → ((kvm_page_start pgt r).satp ≡ pgt / 2 ^ 12) × ((kvm_page_start pgt r).satp / 2 ^ 60 ≡ 0)
unfolding kvm_page_start
kvm_page_start-satp pgt r h =
    let low : (2 ^ 63 + pgt / 2 ^ 12) % 2 ^ 32 ≡ pgt / 2 ^ 12 = omega arith in
    let positive : ltb (pgt / 2 ^ 12) (2 ^ 31) ≡ true = ground arith in
    rw (mode_and_page pgt (omega arith), low, positive) (refl, omega arith)
