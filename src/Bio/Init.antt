-- ===== src/Bio/Init.antt =====
-- `binit`: the list that it builds, and the locks that it sets up.
use raynix.Base.{ℕ, zero, suc, ◌+◌, ◌<◌, ◌≡◌, refl, List, [], ◌∷◌, arith}
use raynix.Sleeplock.{SleepLock}
use raynix.Bio.{head, Cache, binit, link_loop}
use raynix.Bio.Ring.{Leads}

-- `n` numbers up from `i`, and `n` numbers down from below `n`
abbrev pub upward : ℕ → ℕ → List ℕ
upward zero i = []
upward (suc n) i = i ∷ upward n (i + 1)

abbrev pub downward : ℕ → List ℕ
downward zero = []
downward (suc n) = n ∷ downward n

abbrev free_lock : SleepLock
free_lock = record { splk = 1; holding = 0 }

-- After `binit` the links lead through the 30 buffers in order, and backward in reverse order.
-- Every buffer but the last has its sleeping lock set up; that of the last is as it was.
pub binit-Leads :
    (c : Cache)
    → Leads (binit c).next head (upward 30 0) head
      × Leads (binit c).prior head (downward 30) head
      × ((binit c).lock ≡ 1)
      × ((i : ℕ) → i < 29 → (binit c).sllk i ≡ free_lock)
      × ((binit c).sllk 29 ≡ c.sllk 29)
unfolding binit link_loop
binit-Leads c = (omega arith, omega arith, refl, (λ i h. ground arith), refl)
