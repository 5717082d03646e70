-- ===== src/Vm/NewTable.antt =====
-- `empty_vm_create`, and the branch of `walk` for a missing table: the page that they return.
use raynix.Base.{ℕ, ◌+◌, ◌≤◌, ◌<◌, ◌≡◌, ◌∙◌, ◌≢◌, ◌⊎◌, some, List, ◌∷◌, arith}
use raynix.Tools.{set_memory}
use raynix.Tools.Fill.{set_memory_lem}
use raynix.Kalloc.{Kmem}
use raynix.Kalloc.Chain.{IsFree}
use raynix.Kalloc.Laws.{IsFree-spare, kalloc-IsTaken, set_memory-outside}
use raynix.Vm.{empty_vm_create}

-- What `empty_vm_create` leaves when it returns page `x`.
pub record IsCreated (x : ℕ) (xs : List ℕ) (s s' : Kmem) : Type 0 where
  pub free : IsFree s' xs
  pub unlocked : s'.lock ≡ 1
  pub zeros : (b : ℕ) → x ≤ b → b < x + 4096 → s'.mem b ≡ 0
  pub same : (b : ℕ) → (b < x) ⊎ (x + 4096 ≤ b) → s'.mem b ≡ s.mem b

-- With the lock free and a page left, `empty_vm_create` returns the first free page, all zero, and
-- changes no byte outside it.
pub empty_vm_create-IsCreated :
    (id : ℕ) {s : Kmem} {x : ℕ} {xs : List ℕ}
    → s.lock ≢ 0
    → IsFree s (x ∷ xs)
    → (s' : Kmem) × (empty_vm_create id s ≡ some (x, s')) × IsCreated x xs s s'
unfolding empty_vm_create
empty_vm_create-IsCreated id {s} {x} {xs} free f =
    let (s1, got, t) = kalloc-IsTaken id free f in
    let mem = set_memory s1.mem x 0 4096 in
    let outside : (b : ℕ) → (b < x) ⊎ (x + 4096 ≤ b) → mem b ≡ s1.mem b =
      set_memory-outside s1.mem x 0 in
    (
      record s1 { mem = mem },
      rw got,
      record {
        free = IsFree-spare mem outside f.pages.0 f.pages.1 t.rest;
        unlocked = t.unlocked;
        zeros = λ b lo hi. ground (arith, set_memory_lem s1.mem x 0 4096 b);
        same = λ b h. outside b h ∙ t.same b h;
      },
    )
