-- ===== src/Tests/Tables.antt =====
-- kernel/vm.c on an empty table at 4096, and on a table with one page mapped.
use raynix.Base.{
  ℕ, ◌+◌, ◌/◌, ◌^◌, ◌≤◌, ◌<◌, ◌≡◌, refl, arith, none, some, List, [], ◌∷◌, ◌==◌, if◌then◌else◌,
}
use raynix.Memory.{Addr, load64, store64}
use raynix.Memory.Words.{load64-zero}
use raynix.Kalloc.{Kmem}
use raynix.Kalloc.Pages.{IsPage}
use raynix.Vm.{slot, empty_vm_create, walk, find_pa, map, copy_in, copy_out, kvm_page_start}
use raynix.Vm.Table.{pte, translate, IsTree}
use raynix.Vm.Walk.{IsWalked, walk-IsWalked}
use raynix.Vm.Translate.{find_pa-translate}
use raynix.Vm.Map.{IsMapped, map-IsMapped}
use raynix.Vm.Copy.{IsCopied, copy_in-IsCopied, copy_out-IsCopied}
use raynix.Vm.Paging.{kvm_page_start-satp}
use raynix.Vm.Create.{empty_vm_create-IsTree}
use raynix.Tests.{regs, blank, no_pages, two_pages}
use raynix.Tests.Pages.{two_pages-IsFree, two_pages-unlocked, two_pages-low}

abbrev root : Addr
root = 4096

abbrev rank : Addr → ℕ
rank p = if p == root then 3 else 0

root-empty : (p i : ℕ) → 2 ≤ rank p → i < 512 → pte two_pages.mem p i ≡ 0
root-empty p i h lt =
    load64-zero two_pages.mem (slot p i) (λ b lo hi. two_pages-low b (ground arith))

root-IsPage : (p : ℕ) → 0 < rank p → IsPage p
root-IsPage p h = ground arith

root-IsTree : IsTree root rank (8192 ∷ 12288 ∷ []) two_pages
root-IsTree = record {
  free = two_pages-IsFree;
  unlocked = two_pages-unlocked;
  top = refl;
  page = root-IsPage;
  spare = λ x h. ground arith;
  below = λ p i h lt v. absurd (omega (arith, root-empty p i h lt));
  single = λ p i q j h h' lt lt' v v' e. absurd (omega (arith, root-empty p i h lt));
}

empty_vm_create-IsTree_example :
    (s' : Kmem) × (rank : Addr → ℕ) × (empty_vm_create 1 two_pages ≡ some (8192, s'))
    × IsTree 8192 rank (12288 ∷ []) s'
    × ((va : ℕ) → translate s'.mem 8192 va ≡ none)
empty_vm_create-IsTree_example = empty_vm_create-IsTree 1 two_pages-unlocked two_pages-IsFree

walk-IsWalked_example :
    (entry : Addr) × (rank' : Addr → ℕ) × (xs' : List ℕ) × (s' : Kmem) × (walk 1 root 0x10000000
        two_pages
      ≡ some (entry, s'))
    × IsWalked root 0x10000000 rank (8192 ∷ 12288 ∷ []) two_pages entry rank' xs' s'
walk-IsWalked_example = walk-IsWalked 1 0x10000000 root-IsTree (omega arith)

map-IsMapped_example :
    (rank' : Addr → ℕ) × (xs' : List ℕ) × (s' : Kmem) × (map 1 0x10000123 0x10000000 root 1 6
        two_pages
      ≡ some s')
    × IsMapped root 0x10000000 0x10000000 1 2 (8192 ∷ 12288 ∷ []) two_pages rank' xs' s'
map-IsMapped_example =
    map-IsMapped 6 (omega arith) 1 0x10000123 0x10000000 1 root-IsTree (omega arith) (omega arith)
      (omega arith) refl (omega arith)

-- The page 0 mapped to 16384 by tables at 4096, 8192 and 12288.
abbrev pub one_mapped : Kmem
one_mapped = record no_pages {
  mem =
      store64 (store64 (store64 blank 4096 (8192 / 4 + 1)) 8192 (12288 / 4 + 1)) 12288
        (16384 / 4 + 7);
}

translate-one_mapped : translate one_mapped.mem root 5 ≡ some 16389
unfolding load64 store64
translate-one_mapped = refl

find_pa-translate_example : find_pa 1 root 5 one_mapped ≡ some (16389, one_mapped)
find_pa-translate_example = find_pa-translate 1 5 root one_mapped translate-one_mapped

copy_in-IsCopied_example :
    (s' : Kmem) × (copy_in 1 root 40000 5 3 one_mapped ≡ some s')
    × IsCopied 40000 16389 3 one_mapped s'
copy_in-IsCopied_example =
    copy_in-IsCopied 1 3 root one_mapped (omega arith) 40000 5 translate-one_mapped

copy_out-IsCopied_example :
    (s' : Kmem) × (copy_out 1 root 5 40000 3 one_mapped ≡ some s')
    × IsCopied 40000 16389 3 one_mapped s'
copy_out-IsCopied_example =
    copy_out-IsCopied 1 3 root one_mapped (omega arith) 5 40000 translate-one_mapped

kvm_page_start-satp_example :
    ((kvm_page_start 0x87fff000 regs).satp ≡ 0x87fff)
    × ((kvm_page_start 0x87fff000 regs).satp / 2 ^ 60 ≡ 0)
kvm_page_start-satp_example = kvm_page_start-satp 0x87fff000 regs (omega arith)
