-- ===== src/Vm/Create.antt =====
-- The empty page table that `empty_vm_create` returns.
use raynix.Base.{ℕ, ◌≤◌, ◌<◌, ◌≡◌, refl, ◌≢◌, none, some, List, ◌∷◌, arith}
use native.Mathlib.Decide.{ℕ_discrete}
use raynix.Memory.{Addr}
use raynix.Kalloc.{Kmem}
use raynix.Kalloc.Chain.{IsFree}
use raynix.Vm.{empty_vm_create}
use raynix.Vm.Table.{pte, IsValid, vpn, translate, IsTree, promote}
use raynix.Vm.Entry.{pte-zero}
use raynix.Vm.NewTable.{IsCreated, empty_vm_create-IsCreated}

module _ {x : ℕ} {xs : List ℕ} {s s1 : Kmem} (f : IsFree s (x ∷ xs)) (c : IsCreated x xs s s1) where
  -- `x` is the only table.
  abbrev pub only : Addr → ℕ
  only = promote (λ _. 0) x 3

  blank : (p i : ℕ) → 2 ≤ only p → i < 512 → IsValid (pte s1.mem p i) → ⊥
  blank p i high lt ok = elim (ℕ_discrete p x) [
    | yes e ↦ let z = pte-zero s1.mem i lt c.zeros in ground arith
    | no ne ↦ ground arith
  ]

  only-IsTree : IsTree x only xs s1
  only-IsTree = record {
    free = c.free;
    unlocked = λ z. ground (arith, c.unlocked);
    top = ground arith;
    page =
        λ p pos. elim (ℕ_discrete p x) [ yes e ↦ rw e (f.pages.0) | no ne ↦ absurd (ground arith) ];
    spare = λ y h. ground (arith, f.pages.1 y h);
    below = λ p i high lt ok. absurd (blank p i high lt ok);
    single = λ p i q j hp hq li lj ok ok' e. absurd (blank p i hp li ok);
  }

-- With the lock free and a page left, `empty_vm_create` returns a root whose tables are a tree over
-- the other free pages, and in which no address is mapped.
pub empty_vm_create-IsTree :
    (id : ℕ) {s : Kmem} {x : ℕ} {xs : List ℕ}
    → s.lock ≢ 0
    → IsFree s (x ∷ xs)
    → (s' : Kmem) × (rank : Addr → ℕ) × (empty_vm_create id s ≡ some (x, s'))
      × IsTree x rank xs s'
      × ((va : ℕ) → translate s'.mem x va ≡ none)
empty_vm_create-IsTree id {s} {x} free f =
    let (s', ran, c) = empty_vm_create-IsCreated id free f in
    (
      s',
      _,
      ran,
      only-IsTree f c,
      λ va. let z = pte-zero s'.mem (vpn 2 va) (omega arith) c.zeros in rw z refl,
    )
