-- ===== src/Vm/Translate.antt =====
-- The abstract translation of addresses, and `find_pa` against it.
use raynix.Base.{
  ℕ, ◌+◌, ◌*◌, ◌/◌, ◌%◌, ◌^◌, ◌<◌, ◌≡◌, refl, ap, ◌∙◌, Option, none, some, ◌>>=◌, arith, bit_or,
}
use raynix.Base.Bits.{bit_or-step, bit_or-zero, bit_or-fields}
use raynix.Memory.{Addr, Memory, load64}
use raynix.Kalloc.{Kmem}
use raynix.Vm.{leaf_entry, find_pa}
use raynix.Vm.Table.{IsValid, target, valid, lookup, translate}
use raynix.Vm.Entry.{offset_lem}
use raynix.Vm.Walk.{walk-lookup}

-- The entry that `map` writes points to its page, with the valid bit.
pub leaf_entry_lem :
    (pa permission : ℕ)
    → pa % 4096 ≡ 0
    → pa < 2 ^ 56
    → permission < 1024
    → leaf_entry pa permission ≡ (pa / 4096 * 1024 + permission) / 2 * 2 + 1
leaf_entry_lem pa permission aligned small perm =
    ap (λ t. bit_or (bit_or t permission) 1) (omega arith)
    ∙ ap (λ t. bit_or t 1) (bit_or-fields 10 (pa / 4096) permission (omega arith))
    ∙ bit_or-step whole 1
    ∙ omega (arith, bit_or-zero (whole / 2) (whole / 2))
  where
    whole : ℕ
    whole = pa / 4096 * 1024 + permission

found_page :
    (m : Memory) (va pa : ℕ) (o : Option Addr)
    → (o >>= λ entry. valid (load64 m entry) >>= λ page. some (page + va % 2 ^ 12)) ≡ some pa
    → (entry : Addr) × (o ≡ some entry)
      × IsValid (load64 m entry)
      × (pa ≡ target (load64 m entry) + va % 4096)
found_page m va pa none h = absurd (cc)
found_page m va pa (some entry) h = (entry, refl, ground arith, ground arith)

-- What a translation that finds an address says.
pub translate-inv :
    (m : Memory) (root : Addr) (va : ℕ) {pa : ℕ}
    → translate m root va ≡ some pa
    → (entry : Addr) × (lookup m root va ≡ some entry)
      × IsValid (load64 m entry)
      × (pa ≡ target (load64 m entry) + va % 4096)
translate-inv m root va {pa} h = found_page m va pa (lookup m root va) h

pub translate-some :
    (m : Memory) (root : Addr) (va : ℕ) {entry : Addr}
    → lookup m root va ≡ some entry
    → IsValid (load64 m entry)
    → translate m root va ≡ some (target (load64 m entry) + va % 4096)
translate-some m root va h ok = rw (h, ok)

target-offset : (e va : ℕ) → bit_or (target e) (va % 4096) ≡ target e + va % 4096
target-offset e va =
    ap (λ t. bit_or t (va % 4096)) (omega arith)
    ∙ bit_or-fields 12 (target e / 4096) (va % 4096) (omega arith)
    ∙ omega arith

-- `find_pa` returns the physical address of a mapped `va`, and changes nothing.
pub find_pa-translate :
    (id va : ℕ) (root : Addr) (s : Kmem) {pa : ℕ}
    → translate s.mem root va ≡ some pa
    → find_pa id root va s ≡ some (pa, s)
unfolding find_pa
find_pa-translate id va root s h =
    let (entry, at, ok, e) = translate-inv s.mem root va h in
    rw (walk-lookup id va root s at, offset_lem va, e, target-offset (load64 s.mem entry) va) refl
