-- ===== src/Vm/Table.antt =====
-- The abstract view of a page table: which page is a table of which level, and the reading of an
-- address that changes nothing.
use raynix.Base.{
  ℕ, suc, ◌+◌, ◌*◌, ◌/◌, ◌%◌, ◌^◌, ◌≤◌, ◌<◌, ◌≡◌, ◌≢◌, Option, none, some, ◌>>=◌, List, ◌==◌,
  if◌then◌else◌,
}
use raynix.Memory.{Addr, Memory, load64}
use raynix.Kalloc.{Kmem}
use raynix.Kalloc.Pages.{Has, IsPage}
use raynix.Kalloc.Chain.{IsFree}
use raynix.Vm.{slot}

-- Entry `i` of the table at `p`.
abbrev pub pte : Memory → Addr → ℕ → ℕ
pte m p i = load64 m (slot p i)

abbrev pub IsValid : ℕ → Type 0
IsValid e = e % 2 ≡ 1

-- The page that an entry points to.
abbrev pub target : ℕ → Addr
target e = e / 2 ^ 10 * 2 ^ 12 % 2 ^ 64

-- Nine bits of `va` for each level; level 2 is the root's.
abbrev pub vpn : ℕ → ℕ → ℕ
vpn level va = va / 2 ^ (12 + 9 * level) % 512

abbrev pub valid : ℕ → Option Addr
valid e = if e % 2 == 1 then some (target e) else none

-- The last-level entry for `va`, if both tables above it are there.
abbrev pub lookup : Memory → Addr → ℕ → Option Addr
lookup m root va = do
  mid ← valid (pte m root (vpn 2 va))
  leaf ← valid (pte m mid (vpn 1 va))
  some (slot leaf (vpn 0 va))

-- The physical address of `va`, if it is mapped.
abbrev pub translate : Memory → Addr → ℕ → Option ℕ
translate m root va = do
  entry ← lookup m root va
  page ← valid (load64 m entry)
  some (page + va % 2 ^ 12)

-- `rank p` is 3 for the root, 2 and 1 for the tables below it, and 0 for every other page. Valid
-- entries of the tables of rank 3 and 2 lead to tables one rank lower, no two of them to the same;
-- the pages that the allocator holds are no tables.
pub record IsTree (root : Addr) (rank : Addr → ℕ) (xs : List ℕ) (s : Kmem) : Type 0 where
  pub free : IsFree s xs
  pub unlocked : s.lock ≢ 0
  pub top : rank root ≡ 3
  pub page : (p : ℕ) → 0 < rank p → IsPage p
  pub spare : (x : ℕ) → Has x xs → rank x ≡ 0
  pub below :
      (p i : ℕ)
      → 2 ≤ rank p
      → i < 512
      → IsValid (pte s.mem p i)
      → suc (rank (target (pte s.mem p i))) ≡ rank p
  pub single :
      (p i q j : ℕ)
      → 2 ≤ rank p
      → 2 ≤ rank q
      → i < 512
      → j < 512
      → IsValid (pte s.mem p i)
      → IsValid (pte s.mem q j)
      → target (pte s.mem p i) ≡ target (pte s.mem q j)
      → (p ≡ q) × (i ≡ j)

-- The page `x` becomes a table.
abbrev pub promote : (Addr → ℕ) → Addr → ℕ → Addr → ℕ
promote rank x k p = if p == x then k else rank p
