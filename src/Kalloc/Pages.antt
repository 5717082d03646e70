-- ===== src/Kalloc/Pages.antt =====
-- Lists of pages: alignment, membership, distinctness.
use raynix.Base.{
  ℕ, ◌+◌, ◌-◌, ◌*◌, ◌/◌, ◌%◌, ◌^◌, ◌≤◌, ◌<◌, ◌≡◌, ◌≢◌, ◌⊎◌, ◌∙◌, ap, inl, inr, List, [], ◌∷◌, arith,
  bit_and,
}
use raynix.Base.Bits.{bit_and-high}
use raynix.Layout.{pgsize}
use raynix.Kalloc.{pgroundup, pgrounddown}

-- An aligned page whose number fits the 44 bits that a page table entry has for it; not page 0.
pub record IsPage (p : ℕ) : Type 0 where
  pub aligned : p % pgsize ≡ 0
  pub nonzero : 0 < p
  pub small : p < 2 ^ 56

abbrev pub Has : ℕ → List ℕ → Type 0
Has p [] = ⊥
Has p (x ∷ xs) = (p ≡ x) ⊎ Has p xs

abbrev pub IsPages : List ℕ → Type 0
IsPages [] = Unit
IsPages (x ∷ xs) = IsPage x × ((p : ℕ) → Has p xs → p ≢ x) × IsPages xs

pub IsPages-Has : {p : ℕ} (xs : List ℕ) → IsPages xs → Has p xs → IsPage p
IsPages-Has [] d h = absurd h
IsPages-Has (x ∷ xs) d (inl e) = ground arith
IsPages-Has (x ∷ xs) d (inr h) = IsPages-Has xs d.2 h

-- Two pages are one page or do not overlap.
pub apart : {p q : ℕ} → IsPage p → IsPage q → p ≢ q → (p + pgsize ≤ q) ⊎ (q + pgsize ≤ p)
apart a b ne = omega arith

-- Rounding, as arithmetic, for addresses that do not wrap.
pub pgrounddown_lem : (a : ℕ) → a < 2 ^ 64 → pgrounddown a ≡ a / pgsize * pgsize
pgrounddown_lem a h = bit_and-high 12 52 a h

pub pgroundup_lem :
    (a : ℕ) → a + pgsize ≤ 2 ^ 64 → pgroundup a ≡ (a + (pgsize - 1)) / pgsize * pgsize
pgroundup_lem a h =
    ap (λ t. bit_and t (2 ^ 64 - pgsize)) (omega arith)
    ∙ bit_and-high 12 52 (a + (pgsize - 1)) (omega arith)

pub pgroundup-page : {p : ℕ} → IsPage p → pgroundup p ≡ p
pgroundup-page {p} i = pgroundup_lem p (omega arith) ∙ omega arith
