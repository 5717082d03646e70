-- ===== src/Tests/Stacks.antt =====
-- `init_proc_kstack` of kernel/proc.c on a page table in RAM, with pages behind the kernel's image.
use raynix.Base.{
  ℕ, zero, suc, ◌+◌, ◌-◌, ◌*◌, ◌^◌, ◌≤◌, ◌<◌, ◌≡◌, refl, inl, inr, List, [], ◌∷◌, arith, some,
  length,
}
use raynix.Layout.{kernbase, kstack, trampoline_va}
use raynix.Memory.{Addr}
use raynix.Kalloc.{Kmem, free_page}
use raynix.Kalloc.Pages.{Has, IsPage}
use raynix.Kalloc.Chain.{IsFree}
use raynix.Kalloc.Laws.{free_page-IsFree}
use raynix.Vm.{init_proc_kstack}
use raynix.Vm.Table.{translate, IsTree}
use raynix.Vm.Create.{empty_vm_create-IsTree}
use raynix.Vm.Stacks.{init_proc_kstack-IsStacked}
use raynix.Tests.{no_pages}
use raynix.Tests.Pages.{no_pages-IsFree}

-- 16 MB of RAM, 2 MB behind its start
abbrev first : Addr
first = kernbase + 2 ^ 21

abbrev pages : ℕ
pages = 4096

page_run : ℕ → List ℕ
page_run zero = []
page_run (suc n) = (first + 4096 * n) ∷ page_run n

length-page_run : (n : ℕ) → length (page_run n) ≡ n
unfolding page_run
length-page_run zero = refl
length-page_run (suc n) = omega (arith, length-page_run n)

Has-lt : (n x : ℕ) → Has x (page_run n) → x < first + 4096 * n
unfolding page_run
Has-lt zero x h = absurd h
Has-lt (suc n) x (inl e) = omega arith
Has-lt (suc n) x (inr h) = omega (arith, Has-lt n x h)

run-IsPage : (n : ℕ) → n ≤ pages → IsPage (first + 4096 * n)
run-IsPage n h = omega arith

-- the allocator after `free_page` of each
given : ℕ → Kmem
given zero = no_pages
given (suc n) = free_page (first + 4096 * n) (given n)

given-IsFree : (n : ℕ) → n ≤ pages + 1 → IsFree (given n) (page_run n)
unfolding given page_run
given-IsFree zero h = no_pages-IsFree
given-IsFree (suc n) h =
    (free_page-IsFree (run-IsPage n (omega arith)) (λ x i e. omega (arith, Has-lt n x i))
      (given-IsFree n (omega arith))).0

given-lock : (n : ℕ) → (given n).lock ≡ 1
unfolding given free_page
given-lock zero = refl
given-lock (suc n) = given-lock n

abbrev root : ℕ
root = first + 4096 * pages

held : IsFree (given (suc pages)) (root ∷ page_run pages)
held = unfold page_run in given-IsFree (suc pages) (omega arith)

with_table : (s : Kmem) × (rank : Addr → ℕ) × IsTree root rank (page_run pages) s
with_table =
    let (s, rank, made, t, bare) =
      empty_vm_create-IsTree 1 {x = root} {xs = page_run pages}
        (λ z. omega (arith, given-lock (suc pages))) held in
    (s, rank, t)

init_proc_kstack-IsStacked_example :
    (s' : Kmem) × (last : ℕ) × (init_proc_kstack 1 root with_table.0 ≡ some s')
    × ((rank' : Addr → ℕ) × (xs' : List ℕ) × IsTree root rank' xs' s')
    × Has last (page_run pages)
    × ((j o : ℕ)
        → j < 64
        → o < 4096
        → translate s'.mem root (kstack j + o) ≡ some (last + 8192 * (63 - j) + o))
    × ((o : ℕ) → o < 4096 → translate s'.mem root (trampoline_va + o) ≡ some (last + 8192 * 64 + o))
init_proc_kstack-IsStacked_example =
    init_proc_kstack-IsStacked 1 with_table.2 (omega (arith, length-page_run pages))
      (λ x h. omega (arith, Has-lt pages x h))
