-- ===== src/Kalloc/Chain.antt =====
-- The free list as it lies in memory.
use raynix.Base.{ℕ, ◌+◌, ◌≤◌, ◌<◌, ◌≡◌, refl, inl, inr, List, [], ◌∷◌}
use raynix.Memory.{Addr, Memory, load64}
use raynix.Memory.Words.{load64-agree}
use raynix.Kalloc.{Kmem}
use raynix.Kalloc.Pages.{Has, IsPages}

-- From `p` the first words of the pages lead through `xs` to `NULL`.
abbrev pub Chain : Memory → Addr → List ℕ → Type 0
Chain m p [] = p ≡ 0
Chain m p (x ∷ xs) = (p ≡ x) × Chain m (load64 m x) xs

-- A chain survives any change that spares the first words of its pages.
pub Chain-agree :
    (m n : Memory) (p : Addr) (xs : List ℕ)
    → ((x : ℕ) → Has x xs → (b : ℕ) → x ≤ b → b < x + 8 → n b ≡ m b)
    → Chain m p xs
    → Chain n p xs
Chain-agree m n p [] same c = c
Chain-agree m n p (x ∷ xs) same c = (
  c.0,
  Chain-agree m n (load64 n x) xs (λ y h. same y (inr h))
      (rw (load64-agree n m x (same x (inl refl))) c.1),
)

-- The allocator holds exactly the pages `xs`, each once, in this order.
pub record IsFree (s : Kmem) (xs : List ℕ) : Type 0 where
  pub chain : Chain s.mem s.page_link xs
  pub pages : IsPages xs
