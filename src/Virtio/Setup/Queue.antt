-- ===== src/Virtio/Setup/Queue.antt =====
-- The memory of the queue and the free descriptors that `virtio_disk_init` sets up.
use raynix.Base.{
  ℕ, zero, suc, ◌+◌, ◌≤◌, ◌<◌, ◌≡◌, refl, ◌∙◌, ◌≢◌, ◌⊎◌, inl, inr, arith, true, false, ◌||◌, ◌&&◌,
  List, [], ◌∷◌, leb, ltb, ◌==◌, if◌then◌else◌, length, get_or, set, length-set, get_or-set,
}
use raynix.Layout.{pgsize}
use raynix.Tools.{set_memory}
use raynix.Tools.Fill.{set_memory_lem}
use raynix.Outcome.{done, panic}
use raynix.Kalloc.{Kmem}
use raynix.Kalloc.Chain.{IsFree}
use raynix.Kalloc.Laws.{kalloc-IsTaken, kalloc-empty, set_memory-outside, IsFree-spare}
use raynix.Virtio.Setup.{free_loop, queue_memory}

pub length-free_loop : (n i : ℕ) (free : List ℕ) → length (free_loop n i free) ≡ length free
unfolding free_loop
length-free_loop zero i free = refl
length-free_loop (suc n) i free = length-free_loop n (i + 1) (set free i 1) ∙ length-set free i 1

pub get_or-free_loop :
    (n i j : ℕ) (free : List ℕ)
    → i + n ≤ length free
    → get_or (free_loop n i free) j 0 ≡ (if leb i j && ltb j (i + n) then 1 else get_or free j 0)
unfolding free_loop
get_or-free_loop zero i j free h = ground arith
get_or-free_loop (suc n) i j free h =
    get_or-free_loop n (i + 1) j (set free i 1) (omega (arith, length-set free i 1))
    ∙ ground (arith, get_or-set free i j 1 0 (omega arith))

-- The pages of the queue are the first three that the allocator had; they are all zero, and it
-- holds the others.
pub record IsQueue (a b c : ℕ) (xs rest : List ℕ) (k : Kmem) : Type 0 where
  pub pages : xs ≡ a ∷ b ∷ c ∷ rest
  pub free : IsFree k rest
  pub unlocked : k.lock ≡ 1
  pub zeros :
      (t : ℕ)
      → ((a ≤ t) × (t < a + 4096)) ⊎ (((b ≤ t) × (t < b + 4096)) ⊎ ((c ≤ t) × (t < c + 4096)))
      → k.mem t ≡ 0

pub queue_memory-cases :
    (id : ℕ) (k : Kmem) (xs : List ℕ)
    → k.lock ≢ 0
    → IsFree k xs
    → ((queue_memory id k ≡ panic) × (length xs < 3))
      ⊎ ((a : ℕ) × (b : ℕ) × (c : ℕ) × (rest : List ℕ) × (k' : Kmem) × (queue_memory id k
            ≡ done (a, b, c, k'))
          × IsQueue a b c xs rest k')
unfolding queue_memory
queue_memory-cases id k [] free f =
    let (k1, e1, t1) = kalloc-empty id free f in
    let (k2, e2, t2) = kalloc-empty id (λ z. omega (arith, t1.unlocked)) t1.rest in
    let (k3, e3, t3) = kalloc-empty id (λ z. omega (arith, t2.unlocked)) t2.rest in
    inl (rw (e1, e2, e3) refl, omega arith)
queue_memory-cases id k (a ∷ []) free f =
    let (k1, e1, t1) = kalloc-IsTaken id free f in
    let (k2, e2, t2) = kalloc-empty id (λ z. omega (arith, t1.unlocked)) t1.rest in
    let (k3, e3, t3) = kalloc-empty id (λ z. omega (arith, t2.unlocked)) t2.rest in
    let missing : ((a == 0) || (0 == 0) || (0 == 0)) ≡ true = ground arith in
    inl (rw (e1, e2, e3, missing) refl, omega arith)
queue_memory-cases id k (a ∷ b ∷ []) free f =
    let (k1, e1, t1) = kalloc-IsTaken id free f in
    let (k2, e2, t2) = kalloc-IsTaken id (λ z. omega (arith, t1.unlocked)) t1.rest in
    let (k3, e3, t3) = kalloc-empty id (λ z. omega (arith, t2.unlocked)) t2.rest in
    let missing : ((a == 0) || (b == 0) || (0 == 0)) ≡ true = ground arith in
    inl (rw (e1, e2, e3, missing) refl, omega arith)
queue_memory-cases id k (a ∷ b ∷ c ∷ rest) free f =
    let (k1, e1, t1) = kalloc-IsTaken id free f in
    let (k2, e2, t2) = kalloc-IsTaken id (λ z. omega (arith, t1.unlocked)) t1.rest in
    let (k3, e3, t3) = kalloc-IsTaken id (λ z. omega (arith, t2.unlocked)) t2.rest in
    let (page_a, other_a, (page_b, other_b, (page_c, other_c, _))) = f.pages in
    let m1 = set_memory k3.mem a 0 pgsize in
    let m2 = set_memory m1 b 0 pgsize in
    let m3 = set_memory m2 c 0 pgsize in
    let all : ((a == 0) || (b == 0) || (c == 0)) ≡ false =
      ground (arith, page_a.nonzero, page_b.nonzero, page_c.nonzero) in
    inr (
      a,
      b,
      c,
      rest,
      record k3 { mem = m3 },
      rw (e1, e2, e3, all) refl,
      record {
        pages = refl;
        free = IsFree-spare m3 (set_memory-outside m2 c 0) page_c other_c (
            IsFree-spare m2 (set_memory-outside m1 b 0) page_b (λ x h. other_b x (inr h))
              (IsFree-spare m1 (set_memory-outside k3.mem a 0) page_a
                (λ x h. other_a x (inr (inr h))) t3.rest));
        unlocked = t3.unlocked;
        zeros = λ t h. ground (
          arith,
          set_memory_lem k3.mem a 0 4096 t,
          set_memory_lem m1 b 0 4096 t,
          set_memory_lem m2 c 0 4096 t,
        );
      },
    )
