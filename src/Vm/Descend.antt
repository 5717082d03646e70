-- ===== src/Vm/Descend.antt =====
-- One round of `walk`, from a table to the one below it.
use raynix.Base.{
  ℕ, suc, ◌+◌, ◌-◌, ◌%◌, ◌≤◌, ◌<◌, ◌≡◌, refl, sym, ap, ◌∙◌, ◌≢◌, ◌⊎◌, inl, inr, some, List, [], ◌∷◌,
  arith, length,
}
use native.Mathlib.Decide.{ℕ_discrete}
use raynix.Memory.{Addr, Memory, store64}
use raynix.Memory.Words.{load64-store64_self, load64-store64_apart, store64-outside}
use raynix.Kalloc.{Kmem}
use raynix.Kalloc.Pages.{Has, IsPage, apart}
use raynix.Kalloc.Laws.{IsFree-spare}
use raynix.Vm.{slot, descend, empty_vm_create}
use raynix.Vm.Table.{pte, IsValid, target, vpn, IsTree, promote}
use raynix.Vm.NewTable.{IsCreated, empty_vm_create-IsCreated}
use raynix.Vm.Entry.{
  index_lem, valid_lem, table_entry, table_entry-target, slots_apart, pte-agree, pte-zero,
}

-- What one round leaves: `q` is the table below entry `i` of table `p`. Tables stay tables of
-- their rank; entries that were valid, and all entries of last-level tables, keep their value.
pub record IsBelow (root p i : ℕ) (rank : Addr → ℕ) (xs : List ℕ) (s : Kmem) (q : ℕ)
    (rank' : Addr → ℕ) (xs' : List ℕ) (s' : Kmem) : Type 0 where
  pub tree : IsTree root rank' xs' s'
  pub entry : IsValid (pte s'.mem p i) × (target (pte s'.mem p i) ≡ q)
  pub down : suc (rank' q) ≡ rank p
  pub grows : (r : ℕ) → 0 < rank r → rank' r ≡ rank r
  pub keeps :
      (r j : ℕ)
      → 0 < rank r
      → j < 512
      → (IsValid (pte s.mem r j)) ⊎ (rank r ≡ 1)
      → pte s'.mem r j ≡ pte s.mem r j
  pub used : length xs ≤ length xs' + 1
  pub rest : (y : ℕ) → Has y xs' → Has y xs

module _ {root p i x : ℕ} {rank : Addr → ℕ} {xs : List ℕ} {s s1 : Kmem}
    (t : IsTree root rank (x ∷ xs) s) (c : IsCreated x xs s s1) (high : 2 ≤ rank p) (lt : i < 512)
    (missing : pte s.mem p i % 2 ≢ 1) where
  open t use {free, page, spare, below, single}

  -- the memory, and the tables, once the entry for the new table is written
  abbrev mem' : Memory
  mem' = store64 s1.mem (slot p i) (table_entry x)

  abbrev rank' : Addr → ℕ
  rank' = promote rank x (rank p - 1)

  x-IsPage : IsPage x
  x-IsPage = free.pages.0

  not_new : (r : ℕ) → 0 < rank r → r ≢ x
  not_new r pos e = let z = spare x (inl refl) in absurd (ground arith)

  written : pte mem' p i ≡ table_entry x
  written = load64-store64_self s1.mem (slot p i) (table_entry x) (table_entry-target x-IsPage).2

  untouched : (r j : ℕ) → 0 < rank r → j < 512 → (r ≢ p) ⊎ (j ≢ i) → pte mem' r j ≡ pte s.mem r j
  untouched r j pos in_r ne =
      load64-store64_apart s1.mem (slot p i) (table_entry x) (slot r j)
        (slots_apart (page p (omega arith)) (page r pos) lt in_r (ground arith))
      ∙ pte-agree s.mem s1.mem j in_r λ b lo hi.
        let far = apart (page r pos) x-IsPage (not_new r pos) in c.same b (ground arith)

  fresh_zero : (j : ℕ) → j < 512 → pte mem' x j ≡ 0
  fresh_zero j in_x =
      load64-store64_apart s1.mem (slot p i) (table_entry x) (slot x j)
        (slots_apart (page p (omega arith)) x-IsPage lt in_x (inl (not_new p (omega arith))))
      ∙ pte-zero s1.mem j in_x c.zeros

  -- A valid entry of an inner table is the new one or an old one.
  origin :
      (r j : ℕ)
      → 2 ≤ rank' r
      → j < 512
      → IsValid (pte mem' r j)
      → ((r ≡ p) × (j ≡ i))
        ⊎ ((2 ≤ rank r) × (pte mem' r j ≡ pte s.mem r j) × (0 < rank (target (pte s.mem r j))))
  origin r j up in_r ok = elim (ℕ_discrete r x) [
    | yes e ↦ let z = fresh_zero j in_r in absurd (ground arith)
    | no ne ↦ elim (ℕ_discrete r p) [
      | no ne' ↦ inr (old ne (inl ne'))
      | yes e ↦ elim (ℕ_discrete j i) [ yes e' ↦ inl (e, e') | no ne' ↦ inr (old ne (inr ne')) ]
    ]
  ]
    where
      old :
          r ≢ x
          → (r ≢ p) ⊎ (j ≢ i)
          → (2 ≤ rank r) × (pte mem' r j ≡ pte s.mem r j) × (0 < rank (target (pte s.mem r j)))
      old ne other =
          let up' : 2 ≤ rank r = ground arith in
          let same = untouched r j (omega arith) in_r other in
          (up', same, omega (arith, below r j up' in_r (rw same at ok)))

  rank-new : rank' x ≡ rank p - 1
  rank-new = ground arith

  rank-old : (r : ℕ) → 0 < rank r → rank' r ≡ rank r
  rank-old r pos = ground (arith, not_new r pos)

  target-new : target (pte mem' p i) ≡ x
  target-new = ap target written ∙ (table_entry-target x-IsPage).1

  below' :
      (r j : ℕ)
      → 2 ≤ rank' r
      → j < 512
      → IsValid (pte mem' r j)
      → suc (rank' (target (pte mem' r j))) ≡ rank' r
  below' r j up in_r ok = elim (origin r j up in_r ok) [
    | inl (e, e') ↦ rw (e, e', target-new) (omega (arith, rank-new, rank-old p (omega arith)))
    | inr (up', same, pos) ↦ rw same (
        omega (
          arith,
          below r j up' in_r (rw same at ok),
          rank-old r (omega arith),
          rank-old (target (pte s.mem r j)) pos,
        ))
  ]

  single' :
      (r j k l : ℕ)
      → 2 ≤ rank' r
      → 2 ≤ rank' k
      → j < 512
      → l < 512
      → IsValid (pte mem' r j)
      → IsValid (pte mem' k l)
      → target (pte mem' r j) ≡ target (pte mem' k l)
      → (r ≡ k) × (j ≡ l)
  single' r j k l up up' in_r in_k ok ok' e = elim (origin r j up in_r ok) [
    | inl (a, a') ↦ elim (origin k l up' in_k ok') [
      | inl (b, b') ↦ (a ∙ sym b, a' ∙ sym b')
      | inr (up2, same, pos) ↦
          absurd (not_new _ pos (sym (ap target same) ∙ sym e ∙ rw (a, a') target-new))
    ]
    | inr (up1, same, pos) ↦ elim (origin k l up' in_k ok') [
      | inl (b, b') ↦ absurd (not_new _ pos (sym (ap target same) ∙ e ∙ rw (b, b') target-new))
      | inr (up2, same', pos') ↦
          single r j k l up1 up2 in_r in_k (rw same at ok) (rw same' at ok')
            (sym (ap target same) ∙ e ∙ ap target same')
    ]
  ]

  tree' : IsTree root rank' xs (record s1 { mem = mem' })
  tree' = record {
    free =
        IsFree-spare mem' (λ b h. store64-outside s1.mem (slot p i) (table_entry x) b (omega arith))
          (page p (omega arith)) (λ y h e. let z = spare y (inr h) in absurd (ground arith)) c.free;
    unlocked = λ z. absurd (omega (arith, c.unlocked));
    top = ground (arith, not_new root, t.top);
    page = λ r pos. elim (ℕ_discrete r x) [ yes e ↦ rw e x-IsPage | no ne ↦ page r (ground arith) ];
    spare = λ y h. ground (arith, spare y (inr h), free.pages.1 y h);
    below = below';
    single = single';
  }

  elsewhere : (r j : ℕ) → IsValid (pte s.mem r j) ⊎ (rank r ≡ 1) → (r ≢ p) ⊎ (j ≢ i)
  elsewhere r j h = elim (ℕ_discrete r p) [
    | no ne ↦ inl ne
    | yes e ↦ elim (ℕ_discrete j i) [
      | no ne ↦ inr ne
      | yes e' ↦ elim h [
        | inl ok ↦ absurd (missing (rw (e, e') at ok))
        | inr one ↦ absurd (ground arith)
      ]
    ]
  ]

  created-IsBelow : IsBelow root p i rank (x ∷ xs) s x rank' xs (record s1 { mem = mem' })
  created-IsBelow = record {
    tree = tree';
    entry = (rw written (table_entry-target x-IsPage).0, target-new);
    down = omega (arith, rank-new);
    grows = rank-old;
    keeps = λ r j pos in_r h. untouched r j pos in_r (elsewhere r j h);
    used = omega arith;
    rest = λ y h. inr h;
  }

-- The two branches of one round, with the index as a field of `va`.
pub descend-valid :
    (id va i : ℕ) (p : Addr) (s : Kmem)
    → IsValid (pte s.mem p (vpn (2 - i) va))
    → descend id va i p s ≡ some (target (pte s.mem p (vpn (2 - i) va)), s)
unfolding descend
descend-valid id va i p s ok = rw (index_lem va (2 - i), valid_lem, ok)

pub descend-missing :
    (id va i : ℕ) (p : Addr) (s : Kmem) {x : Addr} {s1 : Kmem}
    → pte s.mem p (vpn (2 - i) va) % 2 ≢ 1
    → empty_vm_create id s ≡ some (x, s1)
    → descend id va i p s
      ≡ some (x, record s1 { mem = store64 s1.mem (slot p (vpn (2 - i) va)) (table_entry x) })
unfolding descend
descend-missing id va i p s missing made =
    let zero : pte s.mem p (vpn (2 - i) va) % 2 ≡ 0 = omega arith in
    rw (index_lem va (2 - i), valid_lem, zero, made)

-- From an entry of an inner table, with a page left if the entry is missing, one round of the loop
-- in `walk` returns the table below, and the tables stay a tree.
pub descend-IsBelow :
    (id va i : ℕ) {root p : ℕ} {rank : Addr → ℕ} {xs : List ℕ} {s : Kmem}
    → IsTree root rank xs s
    → 2 ≤ rank p
    → i ≤ 2
    → 0 < length xs
    → (q : ℕ) × (rank' : Addr → ℕ) × (xs' : List ℕ) × (s' : Kmem) × (descend id va i p s
        ≡ some (q, s'))
      × IsBelow root p (vpn (2 - i) va) rank xs s q rank' xs' s'
descend-IsBelow id va i {root} {p} {rank} {xs = []} {s} t high two left = absurd (omega arith)
descend-IsBelow id va i {root} {p} {rank} {xs = x ∷ xs} {s} t high two left =
    elim (ℕ_discrete (pte s.mem p (vpn (2 - i) va) % 2) 1) [
      | yes ok ↦ (
        target (pte s.mem p (vpn (2 - i) va)),
        rank,
        x ∷ xs,
        s,
        descend-valid id va i p s ok,
        record {
          tree = t;
          entry = (ok, refl);
          down = t.below p (vpn (2 - i) va) high (omega arith) ok;
          grows = λ r pos. refl;
          keeps = λ r j pos in_r h. refl;
          used = omega arith;
          rest = λ y h. h;
        },
      )
      | no missing ↦
          let (s1, made, c) = empty_vm_create-IsCreated id t.unlocked t.free in
          (
            x,
            _,
            xs,
            _,
            descend-missing id va i p s missing made,
            created-IsBelow t c high (omega arith) missing,
          )
    ]
