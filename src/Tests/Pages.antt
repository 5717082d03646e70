-- ===== src/Tests/Pages.antt =====
-- kernel/kalloc.c on two free pages.
use raynix.Base.{
  put, true, false, ℕ, ◌+◌, ◌≤◌, ◌<◌, ◌≡◌, refl, ◌∙◌, ◌≢◌, ◌⊎◌, inl, inr, arith, some, [], ◌∷◌,
}
use raynix.Kalloc.{Kmem, kalloc, free_page}
use raynix.Kalloc.Pages.{Has, IsPage}
use raynix.Kalloc.Chain.{IsFree}
use raynix.Kalloc.Laws.{IsTaken, kalloc-IsTaken, free_page-IsFree}
use raynix.Kalloc.Held.{Reach, start, take, kalloc-reached}
use raynix.Tests.{no_pages, two_pages}

pub no_pages-IsFree : IsFree no_pages []
no_pages-IsFree = record { chain = refl; pages = tt }

page8192 : IsPage 8192
page8192 = record { aligned = refl; nonzero = omega arith; small = omega arith }

page12288 : IsPage 12288
page12288 = record { aligned = refl; nonzero = omega arith; small = omega arith }

one-IsFree : IsFree (free_page 12288 no_pages) (12288 ∷ [])
one-IsFree = (free_page-IsFree page12288 (λ x h. absurd h) no_pages-IsFree).0

fresh8192 : (x : ℕ) → Has x (12288 ∷ []) → 8192 ≢ x
fresh8192 x (inl e) f = omega arith
fresh8192 x (inr z) f = absurd z

pub two_pages-IsFree : IsFree two_pages (8192 ∷ 12288 ∷ [])
two_pages-IsFree = (free_page-IsFree page8192 fresh8192 one-IsFree).0

pub two_pages-unlocked : two_pages.lock ≢ 0
unfolding free_page
two_pages-unlocked e = omega arith

-- nothing is written below the two pages
pub two_pages-low : (b : ℕ) → b < 8192 → two_pages.mem b ≡ 0
two_pages-low b low =
    (free_page-IsFree page8192 fresh8192 one-IsFree).1 b (inl low)
    ∙ (free_page-IsFree page12288 (λ x h. absurd h) no_pages-IsFree).1 b (inl (omega arith))

kalloc-IsTaken_example :
    (s' : Kmem) × (kalloc 1 two_pages ≡ some (8192, s')) × IsTaken 8192 (12288 ∷ []) two_pages s'
kalloc-IsTaken_example = kalloc-IsTaken 1 two_pages-unlocked two_pages-IsFree

-- Page 8192 of the two is taken, and then there is one more call.
taken_once :
    (s : Kmem) × Reach s (put (λ p. false) 8192 true) × (s.lock ≢ 0) × IsFree s (12288 ∷ [])
taken_once =
    let (s, got, t) = kalloc-IsTaken 1 two_pages-unlocked two_pages-IsFree in
    (
      s,
      take 1 8192 (start (8192 ∷ 12288 ∷ []) two_pages-unlocked two_pages-IsFree) got
          (λ e. omega arith),
      (λ z. omega (arith, t.unlocked)),
      t.rest,
    )

taken_twice : (s' : Kmem) × (kalloc 1 taken_once.0 ≡ some (12288, s'))
taken_twice = let (s', got, t) = kalloc-IsTaken 1 taken_once.2 taken_once.3 in (s', got)

kalloc-reached_example :
    ((◌≡◌ {A = ℕ} 12288 0) ⊎ (IsPage 12288 × (put (λ p. false) 8192 true 12288 ≡ false)))
    × ((q b : ℕ)
        → put (λ p. false) 8192 true q ≡ true
        → q ≤ b
        → b < q + 4096
        → taken_twice.0.mem b ≡ taken_once.0.mem b)
kalloc-reached_example =
    kalloc-reached 1 12288 taken_once.0 taken_twice.0 (put (λ p. false) 8192 true) taken_once.1
      taken_twice.1
