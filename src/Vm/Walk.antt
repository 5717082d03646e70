-- ===== src/Vm/Walk.antt =====
-- `walk` finds the entry that the abstract reading finds, after it has made the tables that miss.
use raynix.Base.{ℕ, ◌+◌, ◌≤◌, ◌<◌, ◌≡◌, refl, sym, ◌∙◌, inl, inr, some, List, arith, length}
use raynix.Memory.{Addr, Memory, load64}
use raynix.Kalloc.{Kmem}
use raynix.Kalloc.Pages.{Has}
use raynix.Vm.{slot, walk_loop, walk}
use raynix.Vm.Table.{pte, IsValid, target, vpn, lookup, IsTree}
use raynix.Vm.Entry.{index_lem, slot-injective}
use raynix.Vm.Descend.{IsBelow, descend-valid, descend-IsBelow}

-- the tables that the reading of `va` goes through
abbrev pub mid_table : Memory → Addr → ℕ → Addr
mid_table m root va = target (pte m root (vpn 2 va))

abbrev pub leaf_table : Memory → Addr → ℕ → Addr
leaf_table m root va = target (pte m (mid_table m root va) (vpn 1 va))

-- What a reading that finds an entry says.
pub record IsFound (m : Memory) (root : Addr) (va : ℕ) (entry : Addr) : Type 0 where
  pub top : IsValid (pte m root (vpn 2 va))
  pub mid : IsValid (pte m (mid_table m root va) (vpn 1 va))
  pub place : entry ≡ slot (leaf_table m root va) (vpn 0 va)

module _ (m : Memory) (root : Addr) (va : ℕ) {entry : Addr} where
  pub lookup-IsFound : lookup m root va ≡ some entry → IsFound m root va entry
  lookup-IsFound h = ground arith

  pub IsFound-lookup : IsFound m root va entry → lookup m root va ≡ some entry
  IsFound-lookup f = rw (f.top, f.mid, f.place)

module _ {root : Addr} {rank : Addr → ℕ} {xs : List ℕ} {s : Kmem} (t : IsTree root rank xs s) where
  -- the ranks of the tables on the way to an entry that is found
  pub rank-mid :
      (va : ℕ) {entry : Addr} → IsFound s.mem root va entry → rank (mid_table s.mem root va) ≡ 2
  rank-mid va f =
      omega (arith, t.top, t.below root (vpn 2 va) (omega (arith, t.top)) (omega arith) f.top)

  pub rank-leaf :
      (va : ℕ) {entry : Addr} → IsFound s.mem root va entry → rank (leaf_table s.mem root va) ≡ 1
  rank-leaf va f =
      let two = rank-mid va f in
      omega (arith, t.below (mid_table s.mem root va) (vpn 1 va) (omega arith) (omega arith) f.mid)

  -- Two addresses with one last-level entry agree in all three fields.
  pub lookup-injective :
      (va vb : ℕ) {entry : Addr}
      → lookup s.mem root va ≡ some entry
      → lookup s.mem root vb ≡ some entry
      → (vpn 2 va ≡ vpn 2 vb) × (vpn 1 va ≡ vpn 1 vb) × (vpn 0 va ≡ vpn 0 vb)
  lookup-injective va vb {entry} h k =
      let f = lookup-IsFound s.mem root va h in
      let g = lookup-IsFound s.mem root vb k in
      let last =
        slot-injective {i = vpn 0 va} {j = vpn 0 vb}
          (t.page (leaf_table s.mem root va) (omega (arith, rank-leaf va f)))
          (t.page (leaf_table s.mem root vb) (omega (arith, rank-leaf vb g))) (omega arith)
          (omega arith) (sym f.place ∙ g.place) in
      let mids =
        t.single (mid_table s.mem root va) (vpn 1 va) (mid_table s.mem root vb) (vpn 1 vb)
          (omega (arith, rank-mid va f)) (omega (arith, rank-mid vb g)) (omega arith) (omega arith)
          f.mid g.mid last.0 in
      let tops =
        t.single root (vpn 2 va) root (vpn 2 vb) (omega (arith, t.top)) (omega (arith, t.top))
          (omega arith) (omega arith) f.top g.top mids.0 in
      (tops.1, mids.1, last.1)

  module _ {p i q : ℕ} {rank' : Addr → ℕ} {xs' : List ℕ} {s' : Kmem}
      (b : IsBelow root p i rank xs s q rank' xs' s') where
    -- One round keeps every entry that is found, and its value.
    pub IsBelow-kept :
        (va : ℕ) {entry : Addr}
        → lookup s.mem root va ≡ some entry
        → (lookup s'.mem root va ≡ some entry) × (load64 s'.mem entry ≡ load64 s.mem entry)
    IsBelow-kept va {entry} h =
        let f = lookup-IsFound s.mem root va h in
        let top = b.keeps root (vpn 2 va) (omega (arith, t.top)) (omega arith) (inl f.top) in
        let mid =
          b.keeps (mid_table s.mem root va) (vpn 1 va) (omega (arith, rank-mid va f)) (omega arith)
            (inl f.mid) in
        let last =
          b.keeps (leaf_table s.mem root va) (vpn 0 va) (omega (arith, rank-leaf va f))
            (omega arith) (inr (rank-leaf va f)) in
        (
          IsFound-lookup s'.mem root va (record {
            top = rw top f.top;
            mid = rw (top, mid) f.mid;
            place = rw (top, mid) f.place;
          }),
          rw f.place last,
        )

-- What `walk` leaves when it returns `entry`: the reading of `va` finds that entry, every entry
-- that was found before is found with its value, tables stay tables, two pages at most are used.
pub record IsWalked (root va : ℕ) (rank : Addr → ℕ) (xs : List ℕ) (s : Kmem) (entry : Addr)
    (rank' : Addr → ℕ) (xs' : List ℕ) (s' : Kmem) : Type 0 where
  pub tree : IsTree root rank' xs' s'
  pub found : lookup s'.mem root va ≡ some entry
  pub kept :
      (vb : ℕ) {other : Addr}
      → lookup s.mem root vb ≡ some other
      → (lookup s'.mem root vb ≡ some other) × (load64 s'.mem other ≡ load64 s.mem other)
  pub grows : (r : ℕ) → 0 < rank r → rank' r ≡ rank r
  pub used : length xs ≤ length xs' + 2
  pub rest : (y : ℕ) → Has y xs' → Has y xs

-- With the tables a tree and two pages left, `walk` returns, and returns the entry for `va` in a
-- tree of tables in which every entry found before is still found and holds the same value.
pub walk-IsWalked :
    (id va : ℕ) {root : Addr} {rank : Addr → ℕ} {xs : List ℕ} {s : Kmem}
    → IsTree root rank xs s
    → 2 ≤ length xs
    → (entry : Addr) × (rank' : Addr → ℕ) × (xs' : List ℕ) × (s' : Kmem) × (walk id root va s
        ≡ some (entry, s'))
      × IsWalked root va rank xs s entry rank' xs' s'
unfolding walk walk_loop
walk-IsWalked id va {root} {rank} {xs} {s} t left =
    let (q1, rank1, xs1, s1, ran1, b1) =
      descend-IsBelow id va 0 t (omega (arith, t.top)) (omega arith) (omega arith) in
    let (q2, rank2, xs2, s2, ran2, b2) =
      descend-IsBelow id va 1 {p = q1} b1.tree (omega (arith, b1.down, t.top)) (omega arith)
        (omega (arith, b1.used)) in
    let top =
      b2.keeps root (vpn 2 va) (omega (arith, b1.tree.top)) (omega arith) (inl b1.entry.0) in
    (
      slot q2 (vpn 0 va),
      rank2,
      xs2,
      s2,
      rw (ran1, ran2, index_lem va 0),
      record {
        tree = b2.tree;
        found = IsFound-lookup s2.mem root va (record {
          top = rw top b1.entry.0;
          mid = rw (top, b1.entry.1) b2.entry.0;
          place = rw (top, b1.entry.1, b2.entry.1) refl;
        });
        kept = λ vb h.
            let one = IsBelow-kept t b1 vb h in
            let two = IsBelow-kept b1.tree b2 vb one.0 in (two.0, two.1 ∙ one.1);
        grows = λ r pos. b2.grows r (omega (arith, b1.grows r pos)) ∙ b1.grows r pos;
        used = omega (arith, b1.used, b2.used);
        rest = λ y h. b1.rest y (b2.rest y h);
      },
    )

-- Where the reading of `va` finds an entry, `walk` returns it and changes nothing.
pub walk-lookup :
    (id va : ℕ) (root : Addr) (s : Kmem) {entry : Addr}
    → lookup s.mem root va ≡ some entry
    → walk id root va s ≡ some (entry, s)
unfolding walk walk_loop
walk-lookup id va root s h =
    let f = lookup-IsFound s.mem root va h in
    rw (
      descend-valid id va 0 root s f.top,
      descend-valid id va 1 (mid_table s.mem root va) s f.mid,
      index_lem va 0,
      f.place,
    )
