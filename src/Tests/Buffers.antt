-- ===== src/Tests/Buffers.antt =====
-- kernel/bio.c and kernel/sleeplock.c on three buffers.
use raynix.Base.{ℕ, none, ◌*◌, ◌<◌, ◌≡◌, ◌≢◌, refl, [], ◌∷◌, arith, some, ◌==◌, if◌then◌else◌}
use raynix.Sleeplock.{SleepLock}
use raynix.Bio.{head, Cache, binit, brelease}
use raynix.Bio.Ring.{Leads, Differ}
use raynix.Bio.Release.{brelease-moves}
use raynix.Bio.Init.{upward, downward, binit-Leads}
use raynix.Kalloc.Pages.{Has}
use raynix.Bio.Get.{bget}
use raynix.Bio.Get.Laws.{handed, bget-get_spec}
use raynix.Bio.Get.Again.{bget-brelease}
use raynix.Tests.{hart}

abbrev held : SleepLock
held = record { splk = 1; holding = 1 }

-- The list 5, 6, 7; buffer 5 has two users, 6 and 7 have one.
abbrev pub three : Cache
three = record {
  next = λ i. if i == 30 then 5 else if i == 5 then 6 else if i == 6 then 7 else 30;
  prior = λ i. if i == 30 then 7 else if i == 7 then 6 else if i == 6 then 5 else 30;
  link_no = λ i. if i == 5 then 2 else 1;
  dev = λ i. 1;
  block_no = λ i. 10 * i;
  valid = λ i. 1;
  sllk = λ i. held;
  lock = 1;
  hart = hart;
}

three-Differ : Differ (30 ∷ 5 ∷ 6 ∷ 7 ∷ [])
three-Differ = (
  (λ y h. ground arith),
  ((λ y h. ground arith), ((λ y h. ground arith), ((λ y h. absurd h), tt))),
)

binit-Leads_example :
    Leads (binit three).next head (upward 30 0) head
    × Leads (binit three).prior head (downward 30) head
    × ((binit three).lock ≡ 1)
    × ((i : ℕ) → i < 29 → (binit three).sllk i ≡ record { splk = 1; holding = 0 })
    × ((binit three).sllk 29 ≡ held)
binit-Leads_example = binit-Leads three

brelease-moves_example :
    (c' : Cache) × (brelease 1 6 three ≡ some c')
    × Leads c'.next head (6 ∷ 5 ∷ 7 ∷ []) head
    × (c'.link_no 6 ≡ 0)
    × ((c'.sllk 6).holding ≡ 0)
    × (c'.lock ≡ 1)
brelease-moves_example =
    brelease-moves 1 6 three (5 ∷ []) (7 ∷ []) (λ e. omega arith) (λ e. omega arith) refl
      three-Differ (refl, (refl, (refl, refl))) refl

away : (y : ℕ) → Has y (5 ∷ 6 ∷ 7 ∷ []) → head ≢ y
away y h = ground arith

bget-get_spec_example : bget 1 1 60 three ≡ some (some 6, handed 1 6 three)
bget-get_spec_example =
    bget-get_spec 1 1 60 (5 ∷ 6 ∷ 7 ∷ []) three (λ e. omega arith) (λ b e. omega arith)
      (omega arith) away (refl, (refl, (refl, refl))) refl

bget-brelease_example :
    (c1 : Cache) × (c2 : Cache) × (bget 1 1 60 three ≡ some (some 6, c1))
    × (brelease 1 6 c1 ≡ some c2)
    × (c2.next ≡ three.next)
    × (c2.prior ≡ three.prior)
    × ((j : ℕ) → c2.link_no j ≡ three.link_no j)
    × ((c2.sllk 6).holding ≡ 0)
    × (bget 1 1 60 c2 ≡ none)
bget-brelease_example =
    bget-brelease 1 1 60 6 (5 ∷ 6 ∷ 7 ∷ []) three (λ e. omega arith) (λ b e. omega arith)
      (omega arith) away (refl, (refl, (refl, refl))) refl refl (λ e. omega arith) (omega arith)
      (omega arith)

pub bget-three :
    (valid : ℕ → ℕ)
    → bget 1 1 60 (record three { valid = valid })
      ≡ some (some 6, handed 1 6 (record three { valid = valid }))
bget-three valid =
    bget-get_spec 1 1 60 (5 ∷ 6 ∷ 7 ∷ []) (record three { valid = valid }) (λ e. omega arith)
      (λ b e. omega arith) (omega arith) away (refl, (refl, (refl, refl))) refl
