-- ===== src/Vm/Map.antt =====
-- `map` against the abstract translation of addresses.
use raynix.Base.{
  ℕ, zero, suc, ◌+◌, ◌-◌, ◌*◌, ◌/◌, ◌%◌, ◌^◌, ◌≤◌, ◌<◌, ◌≡◌, refl, sym, ap, ◌∙◌, ◌⊎◌, inl, inr,
  some, List, arith, length,
}
use native.Mathlib.Decide.{dec_lt}
use raynix.Memory.{Addr, Memory, load64, store64}
use raynix.Memory.Words.{load64-store64_self}
use raynix.Kalloc.{Kmem}
use raynix.Kalloc.Pages.{Has, pgrounddown_lem}
use raynix.Vm.{slot, leaf_entry, walk, map_loop, map}
use raynix.Vm.Table.{vpn, lookup, translate, IsTree}
use raynix.Vm.Walk.{leaf_table, lookup-IsFound, walk-lookup, walk-IsWalked}
use raynix.Vm.Translate.{leaf_entry_lem, translate-inv, translate-some}
use raynix.Vm.Write.{written-IsTree, written-kept}

-- What mapping `n` pages from `va` on to the pages from `pa` on leaves, with at most `budget` new
-- tables.
pub record IsMapped (root va pa n budget : ℕ) (xs : List ℕ) (s : Kmem) (rank' : Addr → ℕ)
    (xs' : List ℕ) (s' : Kmem) : Type 0 where
  pub tree : IsTree root rank' xs' s'
  pub inside : (a : ℕ) → va ≤ a → a < va + 4096 * n → translate s'.mem root a ≡ some (pa + (a - va))
  pub outside :
      (a b : ℕ)
      → a < 2 ^ 39
      → (a < va) ⊎ (va + 4096 * n ≤ a)
      → translate s.mem root a ≡ some b
      → translate s'.mem root a ≡ some b
  pub used : length xs ≤ length xs' + budget
  pub rest : (y : ℕ) → Has y xs' → Has y xs

-- Addresses in one block of 512 pages have last-level entries in one table.
same_block :
    (m : Memory) (root va a : ℕ) {entry : Addr}
    → a / 2 ^ 21 ≡ va / 2 ^ 21
    → lookup m root va ≡ some entry
    → (other : Addr) × (lookup m root a ≡ some other)
same_block m root va a e h =
    let f = lookup-IsFound m root va h in
    let two : vpn 2 a ≡ vpn 2 va = omega arith in
    let one : vpn 1 a ≡ vpn 1 va = omega arith in
    (slot (leaf_table m root va) (vpn 0 a), rw (two, one, f.top, f.mid) refl)

-- Addresses on one page have one translation but for the offset.
same_page :
    (m : Memory) (root va a : ℕ) {entry : Addr}
    → a / 4096 ≡ va / 4096
    → lookup m root va ≡ some entry
    → lookup m root a ≡ some entry
same_page m root va a e h =
    let two : vpn 2 a ≡ vpn 2 va = omega arith in
    let one : vpn 1 a ≡ vpn 1 va = omega arith in
    let zero : vpn 0 a ≡ vpn 0 va = omega arith in rw (two, one, zero) h

-- How many tables the walk for `va` may need: none if its last-level entry is there.
abbrev Ready : ℕ → ℕ → ℕ → Kmem → Type 0
Ready root va k s = (k ≡ 2) ⊎ ((k ≡ 0) × (entry : Addr) × (lookup s.mem root va ≡ some entry))

-- One round of the loop in `map`.
map-round :
    (id va pa permission k : ℕ) {root : Addr} {rank : Addr → ℕ} {xs : List ℕ} {s : Kmem}
    → IsTree root rank xs s
    → Ready root va k s
    → k ≤ length xs
    → va % 4096 ≡ 0
    → va + 4096 ≤ 2 ^ 39
    → pa % 4096 ≡ 0
    → pa + 4096 ≤ 2 ^ 56
    → permission < 1024
    → (entry : Addr) × (rank' : Addr → ℕ) × (xs' : List ℕ) × (s1 : Kmem) × (walk id root va s
        ≡ some (entry, s1))
      × IsMapped root va pa 1 k xs s rank' xs'
          (record s1 { mem = store64 s1.mem entry (leaf_entry pa permission) })
map-round id va pa permission k {root} {rank} {xs} {s} t ready left va0 va1 pa0 pa1 perm =
    elim ready [
      | inl two ↦
          let (entry, rank', xs', s1, ran, w) = walk-IsWalked id va t (omega arith) in
          (
            entry,
            rank',
            xs',
            s1,
            ran,
            stored entry w.tree w.found (λ a other h. w.kept a h) (omega (arith, w.used)) w.rest,
          )
      | inr (none_new, entry, at) ↦ (
        entry,
        rank,
        xs,
        s,
        walk-lookup id va root s at,
        stored entry t at (λ a other h. (h, refl)) (omega arith) (λ y h. h),
      )
    ]
  where
    v : ℕ
    v = leaf_entry pa permission

    word : v < 2 ^ 64
    word = omega (arith, leaf_entry_lem pa permission pa0 (omega arith) perm)

    stored :
        (entry : Addr) {rank' : Addr → ℕ} {xs' : List ℕ} {s1 : Kmem}
        → IsTree root rank' xs' s1
        → lookup s1.mem root va ≡ some entry
        → ((a : ℕ) (other : Addr)
            → lookup s.mem root a ≡ some other
            → (lookup s1.mem root a ≡ some other) × (load64 s1.mem other ≡ load64 s.mem other))
        → length xs ≤ length xs' + k
        → ((y : ℕ) → Has y xs' → Has y xs)
        → IsMapped root va pa 1 k xs s rank' xs' (record s1 { mem = store64 s1.mem entry v })
    stored entry {s1 = s1} tree found kept used rest =
        let e = leaf_entry_lem pa permission pa0 (omega arith) perm in
        let self = load64-store64_self s1.mem entry v word in
        record {
          tree = written-IsTree va v tree found word;
          inside = λ a lo hi.
              translate-some _ root a
                (same_page _ root va a (omega arith) (written-kept va v tree found word va found).0)
                (rw self (omega arith))
              ∙ ap some (rw self (omega arith));
          outside = λ a b small out h.
              let (other, at, ok, is) = translate-inv s.mem root a h in
              let (at1, value1) = kept a other at in
              let (at2, value2) = written-kept va v tree found word a at1 in
              let value = value2 (omega arith) ∙ value1 in
              translate-some _ root a at2 (rw value ok) ∙ ap some (rw value (sym is));
          used = used;
          rest = rest;
        }

-- The tables that a run over `n` pages from `va` on may need, with `k` for the block of `va`: two for
-- each further block.
abbrev pub need : ℕ → ℕ → ℕ → ℕ
need k va zero = 0
need k va (suc n) = k + 2 * ((va + 4096 * n) / 2 ^ 21 - va / 2 ^ 21)

-- The next page is in the block of `va`, where its entry is, or in the next block.
step_on :
    (root va n k : ℕ) (s' : Kmem) {b : ℕ}
    → va % 4096 ≡ 0
    → translate s'.mem root va ≡ some b
    → (k' : ℕ) × Ready root (va + 4096) k' s' × (need k' (va + 4096) n + k ≤ need k va (suc n))
step_on root va zero k s' va0 h = (2, inl refl, omega arith)
step_on root va (suc n) k s' va0 h = elim (dec_lt ((va + 4096) / 2 ^ 21) (va / 2 ^ 21 + 1)) [
  | yes same ↦
      let (entry, at, ok, is) = translate-inv s'.mem root va h in
      let (other, next) = same_block s'.mem root va (va + 4096) (omega arith) at in
      (0, inr (refl, other, next), omega arith)
  | no more ↦ (2, inl refl, omega arith)
]

module _ {root : Addr} (permission : ℕ) (perm : permission < 1024) where
  -- The loop maps its pages one after the other.
  map_loop-IsMapped :
      (id n va pa k : ℕ) {rank : Addr → ℕ} {xs : List ℕ} {s : Kmem}
      → IsTree root rank xs s
      → Ready root va k s
      → need k va n ≤ length xs
      → va % 4096 ≡ 0
      → va + 4096 * n ≤ 2 ^ 39
      → pa % 4096 ≡ 0
      → pa + 4096 * n ≤ 2 ^ 56
      → (rank' : Addr → ℕ) × (xs' : List ℕ) × (s' : Kmem) × (map_loop id root permission n va pa s
          ≡ some s')
        × IsMapped root va pa n (need k va n) xs s rank' xs' s'
  unfolding map_loop
  map_loop-IsMapped id zero va pa k {rank} {xs} {s} t ready left va0 va1 pa0 pa1 = (
    rank,
    xs,
    s,
    refl,
    record {
      tree = t;
      inside = λ a lo hi. absurd (omega arith);
      outside = λ a b small out h. h;
      used = omega arith;
      rest = λ y h. h;
    },
  )
  map_loop-IsMapped id (suc n) va pa k {s} t ready left va0 va1 pa0 pa1 =
      let (entry, rank1, xs1, s1, ran1, m1) =
        map-round id va pa permission k t ready (omega arith) va0 (omega arith) pa0 (omega arith)
          perm in
      let s1' = record s1 { mem = store64 s1.mem entry (leaf_entry pa permission) } in
      let (k2, ready2, fewer) =
        step_on root va n k s1' va0 (m1.inside va (omega arith) (omega arith)) in
      let (rank2, xs2, s2, ran2, m2) =
        map_loop-IsMapped id n (va + 4096) (pa + 4096) k2 m1.tree ready2
          (omega (arith, m1.used, fewer)) (omega arith) (omega arith) (omega arith) (omega arith) in
      (
        rank2,
        xs2,
        s2,
        (let e1 : (va + 4096) % 2 ^ 64 ≡ va + 4096 = omega arith in
            let e2 : (pa + 4096) % 2 ^ 64 ≡ pa + 4096 = omega arith in rw (ran1, e1, e2) ran2),
        record {
          tree = m2.tree;
          inside = λ a lo hi. elim (dec_lt a (va + 4096)) [
            | yes first ↦
                m2.outside a (pa + (a - va)) (omega arith) (inl first)
                  (m1.inside a lo (omega arith))
            | no later ↦ m2.inside a (omega arith) (omega arith) ∙ ap some (omega arith)
          ];
          outside = λ a b small out h.
              m2.outside a b small (omega arith) (m1.outside a b small (omega arith) h);
          used = omega (arith, m1.used, m2.used, fewer);
          rest = λ y h. m1.rest y (m2.rest y h);
        },
      )

  -- With the tables a tree, two free pages for each block of 512 pages that the range meets,
  -- `permission` of at most ten bits, `pa` page-aligned and both ranges inside their address spaces,
  -- `map` returns, and then the `size` pages from the page of `va` on translate to the pages from
  -- `pa` on, byte by byte, and every address outside them that was mapped before translates as
  -- before.
  pub map-IsMapped :
      (id va pa size : ℕ) {rank : Addr → ℕ} {xs : List ℕ} {s : Kmem}
      → IsTree root rank xs s
      → need 2 (va / 4096 * 4096) size ≤ length xs
      → va / 4096 * 4096 + 4096 * size ≤ 2 ^ 39
      → va < 2 ^ 39
      → pa % 4096 ≡ 0
      → pa + 4096 * size ≤ 2 ^ 56
      → (rank' : Addr → ℕ) × (xs' : List ℕ) × (s' : Kmem) × (map id va pa root size permission s
          ≡ some s')
        × IsMapped root
            (va / 4096 * 4096)
            pa
            size
            (need 2 (va / 4096 * 4096) size)
            xs
            s
            rank'
            xs'
            s'
  unfolding map
  map-IsMapped id va pa size t left va1 small pa0 pa1 =
      let down = pgrounddown_lem va (omega arith) in
      rw down (
        map_loop-IsMapped id size (va / 4096 * 4096) pa 2 t (inl refl) left (omega arith) va1 pa0
          pa1)

  -- the same for an address at the start of a page
  pub map-aligned :
      (id va pa size : ℕ) {rank : Addr → ℕ} {xs : List ℕ} {s : Kmem}
      → IsTree root rank xs s
      → need 2 va size ≤ length xs
      → va % 4096 ≡ 0
      → va + 4096 * size ≤ 2 ^ 39
      → pa % 4096 ≡ 0
      → pa + 4096 * size ≤ 2 ^ 56
      → (rank' : Addr → ℕ) × (xs' : List ℕ) × (s' : Kmem) × (map id va pa root size permission s
          ≡ some s')
        × IsMapped root va pa size (need 2 va size) xs s rank' xs' s'
  unfolding map
  map-aligned id va pa size t left va0 va1 pa0 pa1 =
      let down = pgrounddown_lem va (omega arith) ∙ omega arith in
      rw down (map_loop-IsMapped id size va pa 2 t (inl refl) left va0 va1 pa0 pa1)
