-- ===== src/Vm/Stacks.antt =====
-- `init_proc_kstack` of kernel/proc.c: where the stacks of the processes come to lie.
use raynix.Base.{
  ℕ, zero, suc, ◌+◌, ◌-◌, ◌*◌, ◌^◌, ◌≤◌, ◌<◌, ◌≡◌, ◌≢◌, refl, ap, ◌∙◌, inl, inr, some, List, [],
  ◌∷◌, arith, length, bit_or,
}
use raynix.Layout.{trampoline_va, kstack, pte_r, pte_w}
use raynix.Memory.{Addr}
use raynix.Kalloc.{Kmem, kalloc}
use raynix.Kalloc.Pages.{Has, apart}
use raynix.Kalloc.Laws.{IsTaken, kalloc-IsTaken}
use raynix.Vm.{map, kstack_loop, init_proc_kstack}
use raynix.Vm.Table.{pte, translate, IsTree}
use raynix.Vm.Entry.{pte-agree}
use raynix.Vm.Map.{IsMapped, map-aligned, need}

-- Taking a page for another use leaves the tables a tree.
module _ {root x : ℕ} {rank : Addr → ℕ} {xs : List ℕ} {s s1 : Kmem}
    (t : IsTree root rank (x ∷ xs) s) (c : IsTaken x xs s s1) where
  stays : (r j : ℕ) → 0 < rank r → j < 512 → pte s1.mem r j ≡ pte s.mem r j
  stays r j pos lt = pte-agree s.mem s1.mem j lt λ b lo hi.
      let other : r ≢ x = λ e. let z = t.spare x (inl refl) in absurd (ground arith) in
      let far = apart (t.page r pos) (t.free.pages.0) other in c.same b (ground arith)

  pub taken-IsTree : IsTree root rank xs s1
  taken-IsTree = record {
    free = c.rest;
    unlocked = λ z. absurd (omega (arith, c.unlocked));
    top = t.top;
    page = t.page;
    spare = λ y h. t.spare y (inr h);
    below = λ p i high lt. rw (stays p i (omega arith) lt) (t.below p i high lt);
    single = λ p i q j hp hq li lj.
        rw (stays p i (omega arith) li, stays q j (omega arith) lj) (t.single p i q j hp hq li lj);
  }

-- The pages that the calls of `map` for the stacks cover: 4096 from the stack of process `i` on.
abbrev pub reach : ℕ
reach = 4096 * 4096

-- What `n` rounds from process `i` on leave, `last` being the page of the last round.
pub record IsStacked (root i n : ℕ) (xs : List ℕ) (s' : Kmem) (last : ℕ) : Type 0 where
  pub tree : (rank' : Addr → ℕ) × (xs' : List ℕ) × IsTree root rank' xs' s'
  pub held : Has last xs
  pub stacks :
      (a : ℕ)
      → kstack (i + n - 1) ≤ a
      → a < kstack (i + n - 1) + 4096 * 4096
      → translate s'.mem root a ≡ some (last + (a - kstack (i + n - 1)))

-- a round of the loop
kstack-round :
    (id i : ℕ) {root x : ℕ} {rank : Addr → ℕ} {xs : List ℕ} {s : Kmem}
    → IsTree root rank (x ∷ xs) s
    → i < 64
    → 18 ≤ length xs
    → x + 4096 * 4096 ≤ 2 ^ 56
    → (rank' : Addr → ℕ) × (xs' : List ℕ) × (s1 : Kmem) × (s' : Kmem) × (kalloc id s ≡ some (x, s1))
      × (map id (kstack i) x root 4096 (bit_or pte_r pte_w) s1 ≡ some s')
      × IsMapped root (kstack i) x 4096 18 xs s1 rank' xs' s'
kstack-round id i {root} {x} {rank} {xs} {s} t lt left small =
    let (s1, got, c) = kalloc-IsTaken id t.unlocked t.free in
    let few : need 2 (kstack i) 4096 ≤ 18 = omega arith in
    let (rank', xs', s', ran, m) =
      map-aligned (bit_or pte_r pte_w) (omega arith) id (kstack i) x 4096 (taken-IsTree t c)
        (omega (arith, few)) (omega arith) (omega arith) (t.free.pages.0.aligned) small in
    (
      rank',
      xs',
      s1,
      s',
      got,
      ran,
      record {
        tree = m.tree;
        inside = m.inside;
        outside = m.outside;
        used = omega (arith, m.used, few);
        rest = m.rest;
      },
    )

kstack_loop-IsStacked :
    (id n i : ℕ) {root : ℕ} {rank : Addr → ℕ} {xs : List ℕ} {s : Kmem}
    → IsTree root rank xs s
    → i + suc n ≤ 64
    → 19 * suc n ≤ length xs
    → ((x : ℕ) → Has x xs → x + 4096 * 4096 ≤ 2 ^ 56)
    → (s' : Kmem) × (last : ℕ) × (kstack_loop id root (suc n) i s ≡ some s')
      × IsStacked root i (suc n) xs s' last
unfolding kstack_loop
kstack_loop-IsStacked id n i {xs = []} t few left low = absurd (omega arith)
kstack_loop-IsStacked id zero i {root} {xs = x ∷ xs} {s} t few left low =
    let (rank', xs', s1, s', got, ran, m) =
      kstack-round id i t (omega arith) (omega arith) (low x (inl refl)) in
    (
      s',
      x,
      rw (got, ran) refl,
      record {
        tree = (rank', xs', m.tree);
        held = inl refl;
        stacks = λ a lo hi.
            let e : i + 1 - 1 ≡ i = omega arith in rw e (m.inside a (rw e at lo) (rw e at hi));
      },
    )
kstack_loop-IsStacked id (suc n) i {root} {xs = x ∷ xs} {s} t few left low =
    let (rank', xs', s1, s2, got, ran, m) =
      kstack-round id i t (omega arith) (omega arith) (low x (inl refl)) in
    let (s', last, ran', r) =
      kstack_loop-IsStacked id n (i + 1) m.tree (omega arith) (omega (arith, m.used))
        (λ y h. low y (inr (m.rest y h))) in
    (
      s',
      last,
      rw (got, ran) ran',
      record {
        tree = r.tree;
        held = inr (m.rest last r.held);
        stacks = λ a lo hi.
            let e : i + 1 + suc n - 1 ≡ i + suc (suc n) - 1 = omega arith in
            rw e at (r.stacks a (rw e lo) (rw e hi));
      },
    )

-- With the tables a tree, 1216 free pages or more, and none of them in the last 16 MB below 2 ^ 56,
-- `init_proc_kstack` returns and the tables are a tree. Each of its calls of `map` covers 4096 pages
-- where one is meant, so the last one decides all: from a page `last` on that the allocator held, the
-- stack of process `j` is the page `2 * (63 - j)` pages further, and the trampoline, too, leads there.
pub init_proc_kstack-IsStacked :
    (id : ℕ) {root : ℕ} {rank : Addr → ℕ} {xs : List ℕ} {s : Kmem}
    → IsTree root rank xs s
    → 1216 ≤ length xs
    → ((x : ℕ) → Has x xs → x + 4096 * 4096 ≤ 2 ^ 56)
    → (s' : Kmem) × (last : ℕ) × (init_proc_kstack id root s ≡ some s')
      × ((rank' : Addr → ℕ) × (xs' : List ℕ) × IsTree root rank' xs' s')
      × Has last xs
      × ((j o : ℕ)
          → j < 64
          → o < 4096
          → translate s'.mem root (kstack j + o) ≡ some (last + 8192 * (63 - j) + o))
      × ((o : ℕ)
          → o < 4096
          → translate s'.mem root (trampoline_va + o) ≡ some (last + 8192 * 64 + o))
unfolding init_proc_kstack
init_proc_kstack-IsStacked id {root} {xs = xs} t left low =
    let (s', last, ran, r) = kstack_loop-IsStacked id 63 0 t (omega arith) (omega arith) low in
    (
      s',
      last,
      ran,
      r.tree,
      r.held,
      (λ j o lt small. r.stacks (kstack j + o) (omega arith) (omega arith) ∙ ap some (omega arith)),
      (λ o small. r.stacks (trampoline_va + o) (omega arith) (omega arith) ∙ ap some (omega arith)),
    )
