-- ===== src/Kalloc/Laws.antt =====
-- `free_page` and `kalloc` against the list of pages that the allocator holds.
use raynix.Base.{
  ℕ, ◌+◌, ◌^◌, ◌≤◌, ◌<◌, ◌≡◌, refl, sym, ap, subst, ◌∙◌, ◌≢◌, ◌⊎◌, none, some, List, [], ◌∷◌, arith,
  ◌==◌, if◌then◌else◌,
}
use raynix.Memory.{Addr, Memory, load64}
use raynix.Memory.Words.{load64-store64_self, store64-outside}
use raynix.Tools.{set_memory}
use raynix.Tools.Fill.{set_memory_lem}
use raynix.Spinlock.{push_inter_off, pop_inter_off}
use raynix.Spinlock.Lock.{acquire-free, acquire-held, release_lem}
use raynix.Kalloc.{Kmem, pgroundup, free_page, kalloc}
use raynix.Kalloc.Pages.{Has, IsPage, IsPages, IsPages-Has, apart, pgroundup-page}
use raynix.Kalloc.Chain.{Chain, Chain-agree, IsFree}

-- A fill of one page leaves the bytes outside it.
pub set_memory-outside :
    (m : Memory) (p v b : ℕ) → (b < p) ⊎ (p + 4096 ≤ b) → set_memory m p v 4096 b ≡ m b
set_memory-outside m p v b h = ground (arith, set_memory_lem m p v 4096 b)

-- A change inside one page leaves the chain through other pages.
Chain-spare :
    (m n : Memory) {p : ℕ} (q : Addr) (xs : List ℕ)
    → ((b : ℕ) → (b < p) ⊎ (p + 4096 ≤ b) → n b ≡ m b)
    → IsPage p
    → ((x : ℕ) → Has x xs → x ≢ p)
    → IsPages xs
    → Chain m q xs
    → Chain n q xs
Chain-spare m n {p} q xs same page other pages c =
    Chain-agree m n q xs
      (λ x h b lo hi.
        let i = IsPages-Has xs pages h in
        let far = apart i page (other x h) in same b (ground arith))
      c

-- The allocator holds the same pages after a change inside a page that it does not hold.
pub IsFree-spare :
    {s : Kmem} {p : ℕ} {xs : List ℕ} (n : Memory)
    → ((b : ℕ) → (b < p) ⊎ (p + 4096 ≤ b) → n b ≡ s.mem b)
    → IsPage p
    → ((x : ℕ) → Has x xs → x ≢ p)
    → IsFree s xs
    → IsFree (record s { mem = n }) xs
IsFree-spare {s} {xs} n same page other f = record {
  chain = Chain-spare s.mem n s.page_link xs same page other f.pages f.chain;
  pages = f.pages;
}

-- A chain starts at `NULL` or at a page, so its address fits a word.
pub Chain-small : (m : Memory) (q : Addr) (xs : List ℕ) → IsPages xs → Chain m q xs → q < 2 ^ 64
Chain-small m q [] pages c = omega arith
Chain-small m q (x ∷ xs) pages c = let i = pages.0 in omega arith

-- the state after a `kalloc` that finds the lock free
abbrev pub taken : ℕ → Kmem → Kmem
taken id s = record {
  hart = pop_inter_off id (push_inter_off id s.hart);
  lock = 1;
  page_link = if s.page_link == 0 then s.page_link else load64 s.mem s.page_link;
  mem = set_memory s.mem s.page_link 5 4096;
}

pub kalloc-taken : (id : ℕ) (s : Kmem) → s.lock ≢ 0 → kalloc id s ≡ some (s.page_link, taken id s)
unfolding kalloc
kalloc-taken id s free =
    rw (acquire-free id s.lock s.hart free, release_lem id 0 (push_inter_off id s.hart))

-- What a `kalloc` that returns page `p` leaves.
pub record IsTaken (p : ℕ) (xs : List ℕ) (s s' : Kmem) : Type 0 where
  pub rest : IsFree s' xs
  pub unlocked : s'.lock ≡ 1
  pub junk : (b : ℕ) → p ≤ b → b < p + 4096 → s'.mem b ≡ 5
  pub same : (b : ℕ) → (b < p) ⊎ (p + 4096 ≤ b) → s'.mem b ≡ s.mem b

-- With the lock free and pages left, `kalloc` returns the first page of the list filled with 5,
-- holds exactly the other pages, leaves the lock free, and changes no byte outside the page.
pub kalloc-IsTaken :
    (id : ℕ) {s : Kmem} {p : ℕ} {xs : List ℕ}
    → s.lock ≢ 0
    → IsFree s (p ∷ xs)
    → (s' : Kmem) × (kalloc id s ≡ some (p, s')) × IsTaken p xs s s'
kalloc-IsTaken id {s} {p} {xs} free f = (
  taken id s,
  kalloc-taken id s free ∙ ap (λ q. some (q, taken id s)) f.chain.0,
  record {
    rest = record {
      chain =
          Chain-spare s.mem (taken id s).mem (taken id s).page_link xs same f.pages.0 f.pages.1
            f.pages.2 link;
      pages = f.pages.2;
    };
    unlocked = refl;
    junk = λ b lo hi. ground (arith, f.chain.0, set_memory_lem s.mem s.page_link 5 4096 b);
    same = same;
  },
)
  where
    same : (b : ℕ) → (b < p) ⊎ (p + 4096 ≤ b) → (taken id s).mem b ≡ s.mem b
    same b h = set_memory-outside s.mem s.page_link 5 b (rw (f.chain.0) h)

    link : Chain s.mem (taken id s).page_link xs
    link =
        let e : load64 s.mem p ≡ (taken id s).page_link = ground (arith, f.chain.0) in
        subst (λ q. Chain s.mem q xs) e f.chain.1

-- With the lock free and no page left, `kalloc` returns `NULL` after it has filled the page at
-- address 0, and still holds no page.
pub kalloc-empty :
    (id : ℕ) {s : Kmem}
    → s.lock ≢ 0
    → IsFree s []
    → (s' : Kmem) × (kalloc id s ≡ some (0, s')) × IsTaken 0 [] s s'
kalloc-empty id {s} free f = (
  taken id s,
  kalloc-taken id s free ∙ ap (λ q. some (q, taken id s)) f.chain,
  record {
    rest = record { chain = ground (arith, f.chain); pages = tt };
    unlocked = refl;
    junk = λ b lo hi. ground (arith, f.chain, set_memory_lem s.mem s.page_link 5 4096 b);
    same = λ b h. set_memory-outside s.mem s.page_link 5 b (ground (arith, f.chain));
  },
)

-- With the lock taken `kalloc` does not return.
pub kalloc-locked : (id : ℕ) (s : Kmem) → s.lock ≡ 0 → kalloc id s ≡ none
unfolding kalloc
kalloc-locked id s e = rw (e, acquire-held id s.hart)

-- Freeing an aligned page that the allocator does not hold puts it in front of the list of free
-- pages and changes no byte outside the page.
pub free_page-IsFree :
    {s : Kmem} {p : ℕ} {xs : List ℕ}
    → IsPage p
    → ((x : ℕ) → Has x xs → p ≢ x)
    → IsFree s xs
    → IsFree (free_page p s) (p ∷ xs)
      × ((b : ℕ) → (b < p) ⊎ (p + 4096 ≤ b) → (free_page p s).mem b ≡ s.mem b)
unfolding free_page
free_page-IsFree {s} {p} {xs} page fresh f =
    (record { chain = (refl, linked); pages = (page, (λ x h e. fresh x h (sym e)), f.pages) }, same)
  where
    filled : Memory
    filled = set_memory s.mem (pgroundup p) 1 4096

    same : (b : ℕ) → (b < p) ⊎ (p + 4096 ≤ b) → (free_page p s).mem b ≡ s.mem b
    same b h =
        store64-outside filled p s.page_link b (ground arith)
        ∙ set_memory-outside s.mem (pgroundup p) 1 b (rw (pgroundup-page page) h)

    linked : Chain (free_page p s).mem (load64 (free_page p s).mem p) xs
    linked =
        rw
          (load64-store64_self filled p s.page_link
            (Chain-small s.mem s.page_link xs f.pages f.chain))
          (Chain-spare s.mem (free_page p s).mem s.page_link xs same page
            (λ x h e. fresh x h (sym e)) f.pages f.chain)
