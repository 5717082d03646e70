-- ===== src/Kalloc.antt =====
-- kernel/kalloc.c: the list of free pages, linked through the first word of each page.
pub mod Chain
pub mod Pages
pub mod Laws
pub mod Held
use raynix.Base.{
  ℕ, zero, suc, ◌+◌, ◌-◌, ◌*◌, ◌/◌, ◌%◌, ◌^◌, Option, none, some, ◌>>=◌, bit_and, leb, ◌==◌,
  if◌then◌else◌,
}
use raynix.Layout.{pgsize, kernbase, phystop}
use raynix.Memory.{Addr, Memory, load64, store64}
use raynix.Tools.{set_memory}
use raynix.Spinlock.{Hart, SpinLock, acquire, release}

-- Memory with `page_list_keeper` (`lock` and `page_link`), and the hart that runs.
pub record Kmem : Type 0 where
  pub hart : Hart
  pub lock : SpinLock
  pub page_link : Addr
  pub mem : Memory

-- `PGROUNDUP(a)` in 64 bits: `~(PGSIZE-1)` is all ones but the twelve lowest
abbrev pub pgroundup : ℕ → ℕ
pgroundup a = bit_and ((a + pgsize - 1) % 2 ^ 64) (2 ^ 64 - pgsize)

abbrev pub pgrounddown : ℕ → ℕ
pgrounddown a = bit_and a (2 ^ 64 - pgsize)

-- The fill starts at the rounded address, the link is written at `pa` itself.
unfoldable pub free_page : Addr → Kmem → Kmem
free_page pa s =
    let filled = set_memory s.mem (pgroundup pa) 1 4096 in
    record s { mem = store64 filled pa s.page_link; page_link = pa }

-- The page, or `NULL` when the list is empty. The fill runs on either.
unfoldable pub kalloc : ℕ → Kmem → Option (Addr × Kmem)
kalloc id s = do
  (lock1, hart1) ← acquire id (s.lock, s.hart)
  let fp = s.page_link
  let rest = if fp == 0 then s.page_link else load64 s.mem fp
  let (lock2, hart2) = release id (lock1, hart1)
  some (
    fp,
    record { hart = hart2; lock = lock2; page_link = rest; mem = set_memory s.mem fp 5 4096 },
  )
