-- ===== src/Bio/Get/Again.antt =====
-- A buffer that is got and released, and got again.
use raynix.Base.{
  ℕ, ◌+◌, ◌-◌, ◌^◌, ◌<◌, ◌≤◌, ◌≡◌, refl, ap, ◌∙◌, ◌≢◌, true, false, some, none, List, arith, length,
  ◌==◌, put,
}
use raynix.Kalloc.Pages.{Has}
use raynix.Bio.{head, Cache, brelease}
use raynix.Bio.Ring.{Leads, last}
use raynix.Bio.Release.{opened, closed, brelease-runs, drop_link-more}
use raynix.Bio.Get.{bget}
use raynix.Bio.Get.Laws.{of_block, first_match, handed, bget-get_spec}

-- The state once the new user of `b` has released it.
abbrev back_again : ℕ → ℕ → Cache → Cache
back_again id b c =
    let c1 = handed id b c in
    closed id (record (opened id b c1) { link_no = put c1.link_no b (c1.link_no b - 1) })

-- Under the conditions of `bget-get_spec`, for a buffer of the block that has users and is held:
-- `bget` returns it, and `brelease` of it gives back the list and every count as they were; but the
-- holder before has lost the sleeping lock, and the next `bget` of the block does not return.
pub bget-brelease :
    (id dev block_no b : ℕ) (xs : List ℕ) (c : Cache)
    → c.lock ≢ 0
    → ((j : ℕ) → (c.sllk j).splk ≢ 0)
    → length xs ≤ 30
    → ((y : ℕ) → Has y xs → head ≢ y)
    → Leads c.next head xs head
    → c.prior head ≡ last head xs
    → first_match (of_block dev block_no c) xs ≡ some b
    → (c.sllk b).holding ≢ 0
    → 1 ≤ c.link_no b
    → c.link_no b + 1 < 2 ^ 32
    → (c1 : Cache) × (c2 : Cache) × (bget id dev block_no c ≡ some (some b, c1))
      × (brelease id b c1 ≡ some c2)
      × (c2.next ≡ c.next)
      × (c2.prior ≡ c.prior)
      × ((j : ℕ) → c2.link_no j ≡ c.link_no j)
      × ((c2.sllk b).holding ≡ 0)
      × (bget id dev block_no c2 ≡ none)
bget-brelease id dev block_no b xs c free frees few away l back found held used small =
    let c1 : Cache = handed id b c in
    let c2 : Cache = back_again id b c in
    let taken : ((c.sllk b).holding == 0) ≡ false = ground arith in
    let count : c1.link_no b ≡ c.link_no b + 1 = ground arith in
    let idle : ((c2.sllk b).holding == 0) ≡ true = ground arith in
    (
      c1,
      c2,
      bget-get_spec id dev block_no xs c free frees few away l back ∙ rw (found, taken) refl,
      brelease-runs id b c1 (ground arith) (λ e. omega arith)
          ∙ ap (λ x. some (closed id x))
              (drop_link-more b (opened id b c1) (omega (arith, count)) (omega (arith, count))),
      refl,
      refl,
      (λ j. ground (arith, count)),
      ground arith,
      bget-get_spec id dev block_no xs c2 (λ e. omega arith) (λ j. ground (arith, frees j)) few away
            l back
          ∙ rw (found, idle) refl,
    )
